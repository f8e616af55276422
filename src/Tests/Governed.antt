-- ===== src/Tests/Governed.antt =====
-- The theorems on the Metasploit governor, the graph and the runtime, at concrete calls.
use mathlib.Core.Path.{subst}
use mandare.Prelude.{
  ℕ, String, ◌+◌, ◌≤◌, is_ascii, ◌≡◌, refl, ◌⊎◌, arith, Bool, true, false, not, ◌||◌, some, none,
  List, [], ◌∷◌, ◌++◌, length, Result, ok, err,
}
use mandare.Values.{Value, text, dict, Fields, end, field}
use mandare.Schemas.{allow, deny, normal, elevated, is_locked, is_deny, PolicyDecision}
use mandare.Governance.Posture.{at_least_posture, posture_severity}
use mandare.Runtime.State.{Runtime}
use mandare.Mcp.Intent.{
  MetasploitIntent, CapabilityToken, GovernanceOutcome, EvidenceEvent, lab_broker, shadow,
}
use mandare.Mcp.Governor.{
  Ruling, injection_of, decision_of, unsigned_event, unsigned_token, permit, refuse, rule_on,
  evaluate, mint_token,
}
use mandare.Mcp.Governor.Authority.{HasAuthority, evaluate_allow_needs_authority}
use mandare.Mcp.Governor.Honour.{IsHex, mint_token_honoured}
use mandare.Mcp.Governor.Evidence.{IsEvidenceOf, evaluate_evidence}
use mandare.Runtime.Restore.{restore_posture}
use mandare.Runtime.Durable.{restore_posture-set_posture}
use mandare.Runtime.{set_posture, evaluate as runtime_evaluate}
use mandare.Runtime.Calls.{evaluated, idle, next}
use mandare.Runtime.Ratchet.{Calls-keep_guard}
use mandare.Runtime.Integrity.{Calls-keep_log}
use mandare.Mcp.Corpus.{BenchmarkReport, run_benchmark}
use mandare.Mcp.Corpus.Sealed.{IsSealed, run_benchmark-IsSealed}
use mandare.Audit.{with_hash, genesis_hash}
use mandare.Storage.{Line, row, read_all, read_plain}
use mandare.Storage.Chain.{chained_row, append_chained, verify, verification, ChainVerification}
use mandare.Replay.{decision_from_row, replay_graph}
use mandare.Replay.Logged.{replay_graph-append_chained}
use mandare.Tests.Fixtures.{fixed_host, counting, bare, fetch_from, decision, start, draws, logged}

fixed_hex : IsHex fixed_host
unfolding is_ascii
fixed_hex = record { ascii = λ k m. refl; present = λ k m. refl }

abbrev intent : MetasploitIntent
intent = record {
  actor = "operator";
  tool = "metasploit";
  capability = "module.run";
  target = "lab-1";
  scope_id = "lab";
  words = some "run the scanner";
  params = field "port" (text "445") end;
  untrusted_context = none;
}

abbrev token : CapabilityToken
token =
    let t : CapabilityToken = unsigned_token intent "lead" 60 7 "t1" "ab12" in
    record t { signature = "cd34" }

abbrev signed : PolicyDecision → EvidenceEvent
signed d =
    let e : EvidenceEvent = unsigned_event fixed_host intent d "d1" "ab12" "ab12" in
    record e { signature = "cd34" }

abbrev authorised : Ruling
authorised =
    permit "bounded lab action authorised by capability token" "msf.broker.authorized" false

abbrev outcome_of : Ruling → Bool → GovernanceOutcome
outcome_of r severe =
    let d = decision_of fixed_host "key" intent "lab" normal r 9 in
    record { decision = d; evidence = signed d; severe = severe; simulated = r.simulated }

evaluate_allow_needs_authority_example :
    (is_locked normal ≡ false)
    × (injection_of intent ≡ [])
    × HasAuthority fixed_host "key" intent 8 lab_broker (some token)
unfolding evaluate rule_on injection_of mandare.Mcp.Intent.scan_for_injection
    mandare.Mcp.Intent.string_params mandare.Prelude.is_infix mandare.Prelude.lower
    mandare.Mcp.Capabilities.classify mandare.Prelude.strip mandare.Mcp.Governor.evaluate_lane
    mandare.Mcp.Governor.evaluate_broker mandare.Values.Normal.hmac_signature
    mandare.Values.Normal.normalize_for_json mandare.Mcp.Intent.signing_payload
    mandare.Mcp.Governor.signature_valid mandare.Values.compare_digest mandare.Prelude.is_ascii
    mandare.Mcp.Governor.check_scope mandare.Mcp.Capabilities.contract_hash
    mandare.Mcp.Capabilities.is_severe mandare.Mcp.Governor.finish
    mandare.Mcp.Governor.sign_evidence mandare.Mcp.Intent.intent_hash mandare.Mcp.Intent.unsigned
    mandare.Prelude.is_prefix mandare.Schemas.decision_value mandare.Values.Normal.sha256_digest
evaluate_allow_needs_authority_example =
    evaluate_allow_needs_authority fixed_host "key" intent 8 lab_broker "lab" normal (some token) 9
      "d1" (outcome_of authorised false) refl refl

mint_token_honoured_example :
    (r : Ruling) × (rule_on fixed_host "key" intent lab_broker normal (some token) 8 ≡ ok r)
    × (r.decision ≡ allow)
unfolding mint_token mandare.Mcp.Intent.intent_hash mandare.Values.Normal.sha256_digest
    mandare.Values.Normal.normalize_for_json mandare.Values.Normal.hmac_signature
    mandare.Mcp.Intent.signing_payload injection_of mandare.Mcp.Intent.scan_for_injection
    mandare.Mcp.Intent.string_params mandare.Prelude.is_infix mandare.Prelude.lower
mint_token_honoured_example =
    mint_token_honoured fixed_host fixed_hex "key" intent "lead" "t1" 60 7 8 normal token refl
      (omega arith) refl refl

abbrev denied : GovernanceOutcome
denied =
    outcome_of
      (refuse "shadow lane: high-impact action simulated, never executed" "msf.shadow.denied" false
        true)
      false

evaluate_evidence_example :
    IsEvidenceOf fixed_host fixed_hex "key" intent denied.decision denied.evidence
    × ((not denied.severe || is_deny denied.decision.decision) ≡ true)
unfolding evaluate rule_on injection_of mandare.Mcp.Intent.scan_for_injection
    mandare.Mcp.Intent.string_params mandare.Prelude.is_infix mandare.Prelude.lower
    mandare.Mcp.Capabilities.classify mandare.Prelude.strip mandare.Mcp.Governor.evaluate_lane
    mandare.Mcp.Governor.evaluate_broker mandare.Values.Normal.hmac_signature
    mandare.Values.Normal.normalize_for_json mandare.Mcp.Intent.signing_payload
    mandare.Mcp.Governor.signature_valid mandare.Values.compare_digest mandare.Prelude.is_ascii
    mandare.Mcp.Governor.check_scope mandare.Mcp.Capabilities.contract_hash
    mandare.Mcp.Capabilities.is_severe mandare.Mcp.Governor.finish
    mandare.Mcp.Governor.sign_evidence mandare.Mcp.Intent.intent_hash mandare.Mcp.Intent.unsigned
    mandare.Prelude.is_prefix mandare.Schemas.decision_value mandare.Values.Normal.sha256_digest
evaluate_evidence_example =
    evaluate_evidence fixed_host fixed_hex "key" intent shadow "lab" normal none 8 9 "d1" denied
      refl

Calls-keep_guard_example :
    0
    ≤ posture_severity
        ((runtime_evaluate fixed_host counting bare draws (fetch_from "evil.example") true start).1
          ).posture
unfolding posture_severity
Calls-keep_guard_example =
    Calls-keep_guard fixed_host counting start
      (runtime_evaluate fixed_host counting bare draws (fetch_from "evil.example") true start).1
      (next (evaluated bare draws (fetch_from "evil.example") true) idle)

abbrev after_call : Runtime ℕ
after_call =
    (runtime_evaluate fixed_host counting bare draws (fetch_from "evil.example") true start).1

Calls-keep_log_example :
    (ws : List Value) × (r : ChainVerification) × (read_all after_call.decisions ≡ ok ([] ++ ws))
    × (verify fixed_host ([] ++ ws) ≡ ok r)
    × (r.verified ≡ true)
    × (r.chained_rows ≡ 0 + length ws)
    × (r.unchained_leading ≡ 0)
unfolding read_all verify mandare.Storage.Writers.any_breaks runtime_evaluate mandare.Prelude.lookup
    mandare.PolicyStore.list_rules mandare.Policy.evaluate mandare.Policy.Rules.ordered_rules
    mandare.Prelude.is_prefix mandare.Policy.Rules.host append_chained
    mandare.Values.Normal.normalize_fields mandare.Values.get_field mandare.Storage.Chain.tail_hash
    mandare.Audit.new_record mandare.Values.Normal.sha256_digest posture_severity
    mandare.Governance.Reflexive.observe mandare.Governance.Posture.next_posture at_least_posture
    mandare.Governance.Posture.posture_for_denials mandare.Governance.Telemetry.denial_count
    mandare.Governance.Telemetry.evict mandare.Governance.Telemetry.recent
    mandare.Governance.Telemetry.record_event mandare.Graph.record_edge mandare.Policy.Rules.allowed
    mandare.Policy.Rules.catch_all_rules mandare.Policy.Rules.comparable
    mandare.Policy.Rules.fits_pattern mandare.Policy.Rules.insert_rule
    mandare.Policy.Rules.is_catch_all mandare.Policy.Rules.rule_matches
    mandare.Policy.Rules.sorted_rules mandare.Policy.Rules.specificity mandare.Policy.constrain
    mandare.Policy.decide_by mandare.Policy.deny_with mandare.Policy.fallback
    mandare.Policy.first_match mandare.Policy.refused_host mandare.PolicyStore.validate
    mandare.Prelude.before_slash mandare.Prelude.drop_first mandare.Prelude.is_suffix
    mandare.Prelude.lower mandare.Runtime.decide mandare.Runtime.log_decision
    mandare.Runtime.log_transition mandare.Runtime.profile mandare.Runtime.record_decision
    mandare.Runtime.take_in mandare.Schemas.decision_value mandare.Schemas.posture_value
    mandare.Schemas.to_decision mandare.Storage.Chain.envelope_hash
    mandare.Storage.Chain.envelope_of mandare.Storage.Chain.judge_fields
    mandare.Storage.Chain.judge_row mandare.Storage.Chain.last_line mandare.Storage.Chain.link_holds
    mandare.Storage.Chain.recompute mandare.Storage.Chain.str_field
    mandare.Storage.Chain.verify_rows mandare.Storage.append_plain mandare.Storage.breaks
    mandare.Storage.jsonable mandare.Storage.read_line mandare.Values.Normal.canonical_json
    mandare.Values.Normal.normalize_for_json mandare.Values.as_dict mandare.Values.is_text
    mandare.Values.py_str mandare.Values.set_field mandare.Values.without
Calls-keep_log_example =
    Calls-keep_log fixed_host counting start after_call [] (verification true 0 0 none)
      (next (evaluated bare draws (fetch_from "evil.example") true) idle) refl refl refl refl

run_benchmark-IsSealed_example :
    (report : BenchmarkReport) × (run_benchmark fixed_host "key" shadow
        (λ n. n)
        (λ n. n + 1)
        (λ n. "d")
      ≡ ok report)
    × IsSealed report
    × (report.total ≡ 54)
run_benchmark-IsSealed_example =
    run_benchmark-IsSealed fixed_host fixed_hex "key" shadow (λ n. n) (λ n. n + 1) (λ n. "d")

abbrev first_value : List Line → Value
first_value (row v ∷ ls) = v
first_value _ = text ""

replay_graph-append_chained_example :
    (fs : Fields) × (read_all logged ≡ ok (dict fs ∷ []))
    × (decision_from_row 99 fs ≡ ok (record decision { timestamp = 99 }))
    × (replay_graph fixed_host counting 99 (dict fs ∷ []) ≡ ok 1)
unfolding append_chained mandare.Values.Normal.normalize_fields mandare.Values.get_field
    mandare.Storage.Chain.tail_hash mandare.Audit.new_record mandare.Values.Normal.sha256_digest
    replay_graph mandare.Graph.record_edge read_all mandare.Storage.breaks mandare.Values.set_field
    mandare.Schemas.decision_value mandare.Schemas.posture_value
replay_graph-append_chained_example =
    replay_graph-append_chained fixed_host counting 99 "e1" "2026" decision [] logged [] 0 refl refl
      refl (λ v e. subst (λ ls. mandare.Storage.breaks (first_value ls) ≡ false) e refl)

restore_posture-set_posture_example :
    restore_posture normal
      ((set_posture fixed_host counting elevated start).1).posture_history
      ((set_posture fixed_host counting elevated start).1).decisions
    ≡ ok (at_least_posture elevated normal)
unfolding read_plain posture_severity
restore_posture-set_posture_example =
    restore_posture-set_posture fixed_host counting elevated normal start [] refl refl
