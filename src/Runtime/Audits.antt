-- ===== src/Runtime/Audits.antt =====
-- What src/rif_runtime/runtime.py reports of its decision log, with each read that it makes of it. Other
-- processes may append between two reads, so each read in turn may find other lines.
pub mod Snapshot
use mandare.Prelude.{ℕ, ◌+◌, Option, none, some, List, Result, ok, err, Bool}
use mandare.Values.{Value, Host}
use mandare.Graph.{MultiDiGraph}
use mandare.Storage.{Line, read_all}
use mandare.Storage.Chain.{ChainVerification, verify}
use mandare.Runtime.State.{Runtime}
use mandare.Runtime.Summaries.{
  PersistedSummary, AuditSummary, summarise, graph_summary, telemetry_summary,
}

-- An action that may read the log: of what each read finds, and of the number of reads before it. It
-- gives its result and the number of reads after it.
abbrev pub Reading : Type 0 → Type 0
Reading A = (ℕ → List Line) → ℕ → Result (A × ℕ)

abbrev pub pure : {A : Type 0} → A → Reading A
pure a found reads = ok (a, reads)

abbrev pub lift : {A : Type 0} → Result A → Reading A
lift (ok a) found reads = ok (a, reads)
lift (err e) found reads = err e

infixl 5 ◌>>=◌
abbrev pub ◌>>=◌ : {A B : Type 0} → Reading A → (A → Reading B) → Reading B
◌>>=◌ m f found reads = elim (m found reads) [ ok (a, reads') ↦ f a found reads' | err e ↦ err e ]

-- `self.decisions_store.read_all()`
unfoldable pub read_log : Reading (List Value)
read_log found reads = lift (read_all (found reads)) found (reads + 1)

-- `read_all() if rows is None else rows`
unfoldable pub given_or_read : Option (List Value) → Reading (List Value)
unfolding read_log
given_or_read none = read_log
given_or_read (some rows) = pure rows

-- The result of an action while nobody else writes to the log.
abbrev pub undisturbed : {A : Type 0} → List Line → Reading A → Result A
undisturbed lines m = elim (m (λ reads. lines) 0) [ ok (a, reads) ↦ ok a | err e ↦ err e ]

module _ (host : Host) where
  unfoldable pub verify_decision_chain : Option (List Value) → Reading ChainVerification
  unfolding given_or_read
  verify_decision_chain decisions = do rows ← given_or_read decisions; lift (verify host rows)

  module _ (nx : MultiDiGraph) (same_key : Value → Value → Bool) where
    unfoldable pub persisted_summary :
        Option (List Value) → Runtime nx.Graph → Reading PersistedSummary
    unfolding given_or_read
    persisted_summary decisions s = do
      rows ← given_or_read decisions
      lift (summarise host nx same_key rows s)

    unfoldable pub audit_summary : ℕ → Runtime nx.Graph → Reading AuditSummary
    unfolding read_log persisted_summary verify_decision_chain
    audit_summary now s = do
      decisions ← read_log
      persisted ← persisted_summary (some decisions) s
      chain ← verify_decision_chain (some decisions)
      pure (record {
        environment = s.environment_name;
        posture = s.posture;
        graph = graph_summary host nx s;
        telemetry = telemetry_summary host nx now s;
        persisted = persisted;
        decision_chain = chain;
      })
