-- ===== src/Mcp/Corpus/Sealed.antt =====
-- What a run over the corpus of src/rif_runtime/mcp/corpus.py reports.
use mathlib.Core.Path.{subst}
use mandare.Prelude.{
  ℕ, ◌+◌, String, ◌≡◌, refl, sym, ap, ◌⊎◌, inl, inr, Bool, true, false, Bool-cases, any, not, none,
  List, [], ◌∷◌, arith, length, All, ok,
}
use mandare.Values.{Host, Fields, end, field}
use mandare.Values.Normal.{sha256_digest, normalize_for_json, hmac_signature}
use mandare.Schemas.{normal, is_allow, allow_of}
use mandare.Mcp.Capabilities.{classify, contract_hash}
use mandare.Mcp.Intent.{
  GovernanceMode, read_only_firewall, shadow, lab_broker, MetasploitIntent, GovernanceOutcome,
  intent_hash, unsigned,
}
use mandare.Mcp.Governor.{
  Ruling, injection_of, non_empty, is_read_only, rule_on, evaluate_lane, evaluate_broker, finish,
  sign_evidence, evaluate,
}
use mandare.Mcp.Governor.Authority.{evaluate_allow_needs_authority}
use mandare.Mcp.Governor.Honour.{IsHex}
use mandare.Mcp.Governor.Evidence.{evaluate_evidence}
use mandare.Mcp.Corpus.{
  benchmark_corpus, BenchmarkReport, new_report, tally, run_over, run_benchmark,
}

-- Nothing leaked, and every request has its one verified event.
pub record IsSealed (r : BenchmarkReport) : Type 0 where
  pub leaks : r.execution_leaks ≡ []
  pub events : r.evidence_events ≡ r.total
  pub verified : r.evidence_verified ≡ r.total
  pub decided : r.allowed + r.denied ≡ r.total

tally-IsSealed :
    (intent : MetasploitIntent) (out : GovernanceOutcome) (r : BenchmarkReport)
    → ((is_allow out.decision.decision ≡ false)
        ⊎ (is_read_only (classify intent.capability) ≡ true))
    → IsSealed r
    → IsSealed (tally intent out true r)
unfolding tally
tally-IsSealed intent out r harmless sealed = record {
  leaks = ground (arith, sealed.leaks);
  events = omega (arith, sealed.events);
  verified = omega (arith, sealed.verified);
  decided = ground (arith, sealed.decided);
}

tally-total :
    (intent : MetasploitIntent) (out : GovernanceOutcome) (verified : Bool) (r : BenchmarkReport)
    → (tally intent out verified r).total ≡ r.total + 1
unfolding tally
tally-total intent out verified r = refl

-- The intent has no parameters.
abbrev is_bare : MetasploitIntent → Bool
is_bare intent = elim intent.params [ end ↦ true | field k v fs ↦ false ]

end_of_bare : (fs : Fields) → elim fs [ end ↦ true | field k v gs ↦ false ] ≡ true → fs ≡ end
end_of_bare end h = refl
end_of_bare (field k v fs) h = cc

All-is_bare :
    (intents : List MetasploitIntent)
    → any (λ intent. not (is_bare intent)) intents ≡ false
    → All (λ intent. intent.params ≡ end) intents
All-is_bare [] h = tt
All-is_bare (intent ∷ intents) h = elim (Bool-cases (is_bare intent)) [
  | inl bare ↦ (end_of_bare intent.params bare, All-is_bare intents (rw bare at h))
  | inr other ↦ cc (rw other at h)
]

module _ (host : Host) (hex : IsHex host) (signing_key : String) (mode : GovernanceMode) where
  -- Without a token, only what is read-only is allowed.
  harmless_of :
      (intent : MetasploitIntent) (now stamp : ℕ) (decision_id : String) (out : GovernanceOutcome)
      → evaluate host signing_key intent mode "RIF_Runtime" normal none now stamp decision_id
        ≡ ok out
      → (is_allow out.decision.decision ≡ false)
        ⊎ (is_read_only (classify intent.capability) ≡ true)
  harmless_of intent now stamp decision_id out e =
      elim (Bool-cases (is_allow out.decision.decision)) [
        | inr refused ↦ inl refused
        | inl allows ↦
            let (unlocked, clean, authority) =
              evaluate_allow_needs_authority host signing_key intent now mode "RIF_Runtime" normal
                none stamp decision_id out e (allow_of out.decision.decision allows) in
            elim authority [
              | inl harmless ↦ inr (ap is_read_only harmless)
              | inr (lane, (token, presented, grants)) ↦ cc
            ]
      ]

  -- Without a token, no lane raises.
  evaluate_lane_total :
      (m : GovernanceMode) (intent : MetasploitIntent) (now : ℕ)
      → (r : Ruling) × (evaluate_lane host signing_key intent m none now ≡ ok r)
  unfolding evaluate_lane evaluate_broker
  evaluate_lane_total read_only_firewall intent now = (_, refl)
  evaluate_lane_total shadow intent now = (_, refl)
  evaluate_lane_total lab_broker intent now = (_, refl)

  rule_on_total :
      (intent : MetasploitIntent) (now : ℕ)
      → (r : Ruling) × (rule_on host signing_key intent mode normal none now ≡ ok r)
  unfolding rule_on
  rule_on_total intent now = elim (Bool-cases (non_empty (injection_of intent))) [
    | inl injected ↦ rw injected (_, refl)
    | inr clean ↦ elim (Bool-cases (is_read_only (classify intent.capability))) [
      | inl harmless ↦ rw (clean, harmless) (_, refl)
      | inr other ↦ rw (clean, other) (evaluate_lane_total mode intent now)
    ]
  ]

  -- Where the intent has no parameters, it is decided, and its outcome signed, without a raise.
  abbrev IsDecided : MetasploitIntent → ℕ → ℕ → String → Type 0
  IsDecided intent now stamp decision_id =
      (out : GovernanceOutcome) × (evaluate host signing_key intent mode "RIF_Runtime" normal none
          now stamp decision_id
        ≡ ok out)

  finish_bare :
      (intent : MetasploitIntent) (env_name : String) (r : Ruling) (stamp : ℕ)
      (decision_id : String)
      → (out : GovernanceOutcome) × (finish host signing_key
            (record intent { params = end })
            env_name
            normal
            r
            stamp
            decision_id
          ≡ ok out)
  unfolding finish sign_evidence intent_hash sha256_digest normalize_for_json contract_hash
      hmac_signature unsigned
  finish_bare intent env_name r stamp decision_id = (_, refl)

  evaluate_total :
      (intent : MetasploitIntent) (now stamp : ℕ) (decision_id : String)
      → intent.params ≡ end
      → IsDecided intent now stamp decision_id
  unfolding evaluate
  evaluate_total intent now stamp decision_id bare =
      let bared : MetasploitIntent = record intent { params = end } in
      let same : intent ≡ bared =
        ap (λ (p : Fields). let i : MetasploitIntent = record intent { params = p } in i) bare in
      let (r, ruled) = rule_on_total bared now in
      let (out, signed) = finish_bare intent "RIF_Runtime" r stamp decision_id in
      subst (λ i. IsDecided i now stamp decision_id) (sym same) (out, rw ruled signed)

  module _ (now stamp : ℕ → ℕ) (decision_id : ℕ → String) where
    run_over-IsSealed :
        (intents : List MetasploitIntent) (r : BenchmarkReport)
        → All (λ intent. intent.params ≡ end) intents
        → IsSealed r
        → (report : BenchmarkReport) × (run_over host signing_key mode now stamp decision_id intents
              r
            ≡ ok report)
          × IsSealed report
          × (report.total ≡ r.total + length intents)
    unfolding run_over
    run_over-IsSealed [] r bare sealed = (r, refl, sealed, omega arith)
    run_over-IsSealed (intent ∷ intents) r bare sealed =
        let n = r.total in
        let (out, decided) = evaluate_total intent (now n) (stamp n) (decision_id n) bare.0 in
        let harmless = harmless_of intent (now n) (stamp n) (decision_id n) out decided in
        let evidence =
          (evaluate_evidence host hex signing_key intent mode "RIF_Runtime" normal none (now n)
            (stamp n) (decision_id n) out decided).0 in
        let (report, ran, done, count) =
          run_over-IsSealed intents (tally intent out true r) bare.1
            (tally-IsSealed intent out r harmless sealed) in
        (
          report,
          rw (decided, evidence.verified) ran,
          done,
          omega (arith, count, tally-total intent out true r),
        )

    -- A run over the whole corpus returns, in every lane, whatever the signing key: it decides each of
    -- the 54 intents, allows nothing that is not read-only, and each decision has one event of
    -- evidence, which verifies.
    pub run_benchmark-IsSealed :
        (report : BenchmarkReport) × (run_benchmark host signing_key mode now stamp decision_id
          ≡ ok report)
        × IsSealed report
        × (report.total ≡ 54)
    unfolding run_benchmark benchmark_corpus
    run_benchmark-IsSealed =
        run_over-IsSealed benchmark_corpus new_report (All-is_bare benchmark_corpus refl)
          (record { leaks = refl; events = refl; verified = refl; decided = refl })
