-- ===== src/Runtime/Audits/Snapshot.antt =====
-- The audit of src/rif_runtime/runtime.py describes one state of the log.
use mandare.Prelude.{
  ℕ, ◌+◌, ◌≡◌, refl, sym, ◌∙◌, ap, Bool, true, not, ◌||◌, eqb, List, length, Result, ok, err,
  ok_injective,
}
use mathlib.Core.Path.{subst}
use mandare.Values.{Value, Host}
use mandare.Graph.{MultiDiGraph}
use mandare.Storage.{Line, read_all}
use mandare.Storage.Chain.{ChainVerification, verify}
use mandare.Runtime.State.{Runtime}
use mandare.Runtime.Summaries.{
  PersistedSummary, AuditSummary, summarise, graph_summary, telemetry_summary,
}
use mandare.Runtime.Summaries.Tallies.{
  IsSummaryOf, summarise-IsSummaryOf, chain_adds_up as chain_sum,
}
use mandare.Runtime.Audits.{audit_summary, lift, pure, ◌>>=◌, read_log}

-- What a result was, and what was made of it.
opened :
    {A B : Type 0} (r : Result (A × ℕ)) (f : A → ℕ → Result B) {out : B}
    → (elim r [ ok (a, reads) ↦ f a reads | err e ↦ err e ]) ≡ ok out
    → (p : A × ℕ) × (r ≡ ok p) × (f p.0 p.1 ≡ ok out)
opened (ok (a, reads)) f e = ((a, reads), refl, e)
opened (err x) f e = cc

lifted :
    {A : Type 0} (r : Result A) (found : ℕ → List Line) (reads : ℕ) {p : A × ℕ}
    → lift r found reads ≡ ok p
    → (r ≡ ok p.0) × (reads ≡ p.1)
lifted (ok a) found reads e = (ap (λ q. ok q.0) (ok_injective e), ap (λ q. q.1) (ok_injective e))
lifted (err x) found reads e = cc

module _ (host : Host) (nx : MultiDiGraph) (same_key : Value → Value → Bool) where
  -- What an audit says of the decisions is of these rows.
  pub record IsAuditOf (rows : List Value) (a : AuditSummary) : Type 0 where
    pub figures : IsSummaryOf host nx same_key rows a.persisted
    pub chain : verify host rows ≡ ok a.decision_chain
    pub chain_adds_up :
        (not a.decision_chain.verified
          || eqb (a.decision_chain.chained_rows + a.decision_chain.unchained_leading) (length rows))
        ≡ true

  -- While an audit is made, other processes may append to the log, and each read may find other lines.
  -- If an audit returns, it has read the log once, and what it says of the decisions is all of the rows
  -- that this one read found: their number, the counts by result and by rule, which both add up to that
  -- number, and the outcome of the verification, whose chained rows and rows before the chain add up to
  -- it too where the chain verifies.
  pub audit_summary-IsAuditOf :
      (now reads : ℕ) (s : Runtime nx.Graph) (found : ℕ → List Line) (a : AuditSummary)
      → audit_summary host nx same_key now s found 0 ≡ ok (a, reads)
      → (rows : List Value) × (reads ≡ 1) × (read_all (found 0) ≡ ok rows) × IsAuditOf rows a
  unfolding audit_summary
  audit_summary-IsAuditOf now reads s found a e =
      let make = λ (p : PersistedSummary) (c : ChainVerification).
        let r : AuditSummary = record {
          environment = s.environment_name;
          posture = s.posture;
          graph = graph_summary host nx s;
          telemetry = telemetry_summary host nx now s;
          persisted = p;
          decision_chain = c;
        } in
        r in
      let ((rows, n), read, e1) =
        opened (read_log found 0)
          (λ rows n.
            (lift (summarise host nx same_key rows s) >>= λ p.
            lift (verify host rows) >>= λ c. pure (make p c))
              found n)
          e in
      let (log, one) = lifted (read_all (found 0)) found 1 read in
      let ((p, m), summed, e2) =
        opened (lift (summarise host nx same_key rows s) found n)
          (λ p m. (lift (verify host rows) >>= λ c. pure (make p c)) found m) e1 in
      let (summarised, two) = lifted (summarise host nx same_key rows s) found n summed in
      let ((c, k), checked, e3) =
        opened (lift (verify host rows) found m) (λ c k. pure (make p c) found k) e2 in
      let (verified, three) = lifted (verify host rows) found m checked in
      let made = ok_injective e3 in
      (
        rows,
        sym (ap (λ (r : AuditSummary × ℕ). r.1) made) ∙ sym three ∙ sym two ∙ sym one,
        log,
        subst (IsAuditOf rows) (ap (λ (r : AuditSummary × ℕ). r.0) made) (record {
          figures = summarise-IsSummaryOf host nx same_key rows s p summarised;
          chain = verified;
          chain_adds_up = chain_sum host rows c (length rows) verified refl;
        }),
      )
