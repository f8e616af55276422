-- ===== src/Tests/Sessions.antt =====
-- The theorems on execution, sessions, drift and audits, at concrete runs.
use mandare.Prelude.{
  ℕ, String, ◌+◌, ◌≤◌, ◌≡◌, refl, ◌⊎◌, Bool, true, false, not, ◌||◌, ◌==◌, eqb, ltb, Option, none,
  some, List, [], ◌∷◌, ◌++◌, lookup, arith, Result, ok, err, if◌then◌else◌,
}
use mandare.Values.{Value, text, end, field}
use mandare.Schemas.{normal, elevated, deny, is_allow, PolicyDecision}
use mandare.Governance.Posture.{posture_severity}
use mandare.PolicyStore.{row_of}
use mandare.Capabilities.{
  CapabilityRecord, Capability, ExecutionManifest, ExecutionResult, succeeded, evaluated,
}
use mandare.Capabilities.Admission.{IsAdmissible}
use mandare.Runtime.State.{Runtime}
use mandare.Runtime.Governed.{execute_capability, request_of, denied_result}
use mandare.Runtime.Execution.{IsAnswer, IsAuthorised, execute_capability_needs_authority}
use mandare.Runtime.Summaries.{AuditSummary}
use mandare.Runtime.Audits.{audit_summary}
use mandare.Runtime.Audits.Snapshot.{IsAuditOf, audit_summary-IsAuditOf}
use mandare.Storage.{Line, read_all}
use mandare.Config.{pos}
use mandare.Evals.{
  failed, TurnSpec, TurnDraws, Task, CodeAgent, SandboxResult, SessionResult, run_session,
}
use mandare.Evals.Session.{IsSound, run_session-IsSound}
use mandare.Tests.Fixtures.{fixed_host, counting, bare, start, draws, logged}

abbrev echo_result : ExecutionResult
echo_result = record {
  status = succeeded;
  message = "done";
  output = end;
  metadata = end;
  completed_at = 8;
}

abbrev echo_record : CapabilityRecord
echo_record = record {
  id = "echo";
  name = "echo";
  verified = true;
  evaluations = record { evaluator = "lead"; suite = "all"; passed = true } ∷ [];
  status = evaluated;
}

-- A runtime whose rules allow everything, with one capability.
abbrev serving : Runtime ℕ
serving = record start {
  policy_rows = row_of "open" "allow" "capability.run" "*" "tests" ∷ [];
  registry = record {
    capabilities = ("echo", record { name = "echo"; execute = λ m. ok echo_result }) ∷ [];
    records = ("echo", echo_record) ∷ [];
  };
}

abbrev manifest : ExecutionManifest
manifest = record {
  actor = "agent";
  capability = "echo";
  action = "capability.run";
  target = some "echo";
  parameters = end;
  metadata = end;
  manifest_id = "m1";
}

execute_capability_needs_authority_example :
    ((d : PolicyDecision) × IsAnswer fixed_host counting bare draws (request_of manifest) serving d
      × (is_allow d.decision ≡ false)
      × (echo_result ≡ denied_result fixed_host counting manifest d draws.now))
    ⊎ (IsAuthorised fixed_host counting bare draws (request_of manifest) serving
        × (r : CapabilityRecord) × (lookup manifest.capability serving.registry.records ≡ some r)
        × IsAdmissible r)
unfolding execute_capability mandare.Runtime.evaluate lookup mandare.PolicyStore.list_rules
    mandare.PolicyStore.validate mandare.Schemas.to_decision mandare.Policy.evaluate
    mandare.Policy.Rules.ordered_rules mandare.Policy.Rules.is_catch_all
    mandare.Policy.Rules.rule_matches mandare.Storage.Chain.append_chained
    mandare.Values.Normal.normalize_fields mandare.Values.get_field mandare.Storage.Chain.tail_hash
    mandare.Audit.new_record mandare.Values.Normal.sha256_digest posture_severity
    mandare.Capabilities.admit mandare.Capabilities.kernel_execute mandare.Capabilities.record_for
    mandare.Capabilities.resolve mandare.Governance.Posture.at_least_posture
    mandare.Governance.Posture.next_posture mandare.Governance.Posture.posture_for_denials
    mandare.Governance.Reflexive.observe mandare.Governance.Telemetry.denial_count
    mandare.Governance.Telemetry.evict mandare.Governance.Telemetry.recent
    mandare.Governance.Telemetry.record_event mandare.Graph.record_edge mandare.Policy.Rules.allowed
    mandare.Policy.Rules.catch_all_rules mandare.Policy.Rules.comparable
    mandare.Policy.Rules.fits_pattern mandare.Policy.Rules.host mandare.Policy.Rules.insert_rule
    mandare.Policy.Rules.sorted_rules mandare.Policy.Rules.specificity mandare.Policy.constrain
    mandare.Policy.decide_by mandare.Policy.deny_with mandare.Policy.fallback
    mandare.Policy.first_match mandare.Policy.refused_host mandare.Prelude.insert
    mandare.Prelude.before_slash mandare.Prelude.drop_first mandare.Prelude.is_prefix
    mandare.Prelude.is_suffix mandare.Prelude.lower mandare.Runtime.Governed.admit_capability
    mandare.Runtime.Governed.run_admitted mandare.Runtime.decide mandare.Runtime.log_decision
    mandare.Runtime.log_transition mandare.Runtime.profile mandare.Runtime.record_decision
    mandare.Runtime.take_in mandare.Schemas.decision_value mandare.Schemas.posture_value
    mandare.Storage.Chain.envelope_hash mandare.Storage.Chain.last_line mandare.Storage.append_plain
    mandare.Storage.jsonable mandare.Values.Normal.canonical_json
    mandare.Values.Normal.normalize_for_json mandare.Values.as_dict mandare.Values.py_str
    mandare.Values.set_field
execute_capability_needs_authority_example =
    execute_capability_needs_authority fixed_host counting bare draws manifest serving echo_result
      refl

abbrev same_text : Value → Value → Bool
same_text v w = elim v [ text s ↦ elim w [ text t ↦ s == t | _ ↦ false ] | _ ↦ false ]

abbrev audit : AuditSummary
audit = record {
  environment = "dev";
  posture = normal;
  graph = record { nodes = 0; edges = 0 };
  telemetry = record { recent_denials_60m = 1; event_count = 1 };
  persisted = record {
    decisions_total = 1;
    posture_transitions_total = 0;
    decisions_by_result = (text "deny", 1) ∷ [];
    decisions_by_rule = (text "network.host.denied", 1) ∷ [];
  };
  decision_chain = record {
    verified = true;
    chained_rows = 1;
    unchained_leading = 0;
    broken_at = none;
  };
}

-- The log that a second read would find is another.
abbrev growing : ℕ → List Line
growing n = if eqb n 0 then logged else logged ++ logged

audit_summary-IsAuditOf_example :
    (rows : List Value) × (◌≡◌ {A = ℕ} 1 1)
    × (read_all (growing 0) ≡ ok rows)
    × IsAuditOf fixed_host counting same_text rows audit
unfolding audit_summary read_all mandare.Storage.breaks mandare.Values.set_field
    mandare.Schemas.decision_value mandare.Schemas.posture_value mandare.Storage.read_plain
    mandare.Values.as_dict mandare.Runtime.Summaries.hashable mandare.Values.get_field
    mandare.Storage.Chain.verify mandare.Audit.new_record mandare.Values.Normal.sha256_digest
    mandare.Values.Normal.normalize_for_json mandare.Values.without mandare.Values.is_text
    mandare.Governance.Telemetry.denial_count mandare.Governance.Telemetry.recent
    mandare.Runtime.Summaries.bump mandare.Runtime.Summaries.count_by
    mandare.Runtime.Summaries.count_onto mandare.Runtime.Summaries.summarise
    mandare.Storage.Chain.envelope_of mandare.Storage.Chain.judge_fields
    mandare.Storage.Chain.judge_row mandare.Storage.Chain.link_holds mandare.Storage.Chain.recompute
    mandare.Storage.Chain.str_field mandare.Storage.Chain.verify_rows mandare.Storage.read_line
    mandare.Values.Normal.canonical_json mandare.Values.py_str
audit_summary-IsAuditOf_example =
    audit_summary-IsAuditOf fixed_host counting same_text 8 1 start growing audit refl

-- An agent whose refinement fails the tests.
abbrev pub agent : CodeAgent
agent = record {
  State = ℕ;
  name = "scripted";
  generate_initial = λ prompt entrypoint n. ("v0", n);
  refine = λ code instruction change_type n. ("v1", n);
}

abbrev pub turn_spec : TurnSpec
turn_spec = record { turn = "1"; instruction = "rename"; change_type = "refactor" }

abbrev pub task : Task
task = record {
  task_id = "t1";
  prompt = "write f";
  entrypoint = "f";
  refinement_turns = turn_spec ∷ [];
}

abbrev pub turn_draws : TurnDraws
turn_draws = record {
  gate = draws;
  failure = draws;
  stamp = 8;
  run_in_sandbox = λ code. record {
    passed = false;
    exit_code = pos 1;
    stdout = "";
    stderr = "";
    timed_out = false;
  };
}

abbrev regressed : SessionResult fixed_host counting bare agent "agent:eval" task
regressed = record {
  score = record {
    task_id = "t1";
    turns_attempted = 1;
    turns_passed = 0;
    first_regression_turn = some 1;
    mst_score = 0;
  };
  turns_blocked = 0;
  score_is_meaningful = true;
  events =
      record {
        task_id = "t1";
        turn = "1";
        change_type = "refactor";
        state_hash_before = "ab12";
        state_hash_after = "ab12";
        tests_passed = some false;
        policy_decision = deny;
        verification_status = failed;
        regression_detected = true;
      }
      ∷ [];
  posture_start = normal;
  posture_end = normal;
}

abbrev pub refining : Runtime ℕ
refining = record start { policy_rows = row_of "open" "allow" "code.refine" "*" "tests" ∷ [] }

run_session-IsSound_example : IsSound fixed_host counting bare agent "agent:eval" task regressed
unfolding run_session mandare.Runtime.evaluate lookup mandare.PolicyStore.list_rules
    mandare.PolicyStore.validate mandare.Schemas.to_decision mandare.Policy.evaluate
    mandare.Policy.Rules.ordered_rules mandare.Policy.Rules.is_catch_all
    mandare.Policy.Rules.rule_matches mandare.Storage.Chain.append_chained
    mandare.Values.Normal.normalize_fields mandare.Values.get_field mandare.Storage.Chain.tail_hash
    mandare.Audit.new_record mandare.Values.Normal.sha256_digest posture_severity
    mandare.Evals.after_gate mandare.Evals.Score.first_at mandare.Evals.refined
    mandare.Evals.run_turn mandare.Evals.run_turns mandare.Evals.Score.score_session
    mandare.Evals.session_result mandare.Governance.Posture.at_least_posture
    mandare.Governance.Posture.next_posture mandare.Governance.Posture.posture_for_denials
    mandare.Governance.Reflexive.observe mandare.Governance.Telemetry.denial_count
    mandare.Governance.Telemetry.evict mandare.Governance.Telemetry.recent
    mandare.Governance.Telemetry.record_event mandare.Graph.record_edge mandare.Policy.Rules.allowed
    mandare.Policy.Rules.catch_all_rules mandare.Policy.Rules.comparable
    mandare.Policy.Rules.fits_pattern mandare.Policy.Rules.host mandare.Policy.Rules.insert_rule
    mandare.Policy.Rules.sorted_rules mandare.Policy.Rules.specificity mandare.Policy.constrain
    mandare.Policy.decide_by mandare.Policy.deny_with mandare.Policy.fallback
    mandare.Policy.first_match mandare.Policy.refused_host mandare.Prelude.before_slash
    mandare.Prelude.drop_first mandare.Prelude.is_prefix mandare.Prelude.is_suffix
    mandare.Prelude.lower mandare.Runtime.decide mandare.Runtime.log_decision
    mandare.Runtime.log_transition mandare.Runtime.profile mandare.Runtime.record_decision
    mandare.Runtime.take_in mandare.Schemas.decision_value mandare.Schemas.posture_value
    mandare.Storage.Chain.envelope_hash mandare.Storage.Chain.last_line mandare.Storage.append_plain
    mandare.Storage.jsonable mandare.Values.Normal.canonical_json
    mandare.Values.Normal.normalize_for_json mandare.Values.as_dict mandare.Values.py_str
    mandare.Values.set_field
run_session-IsSound_example =
    run_session-IsSound fixed_host counting bare agent "agent:eval" task 0
      ((turn_spec, turn_draws) ∷ []) refining regressed refl
