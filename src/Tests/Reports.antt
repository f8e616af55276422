-- ===== src/Tests/Reports.antt =====
-- The theorems on the reports of the evaluation, at concrete rows and a concrete session.
use mandare.Prelude.{
  ℕ, String, ◌≡◌, refl, Bool, true, false, any, map, eqb, Option, none, some, List, [], ◌∷◌,
  if◌then◌else◌, ok,
}
use mandare.Schemas.{deny, normal}
use mandare.Evals.{failed, Event, SessionResult, run_session}
use mandare.Evals.Session.{verified}
use mandare.Evals.Report.{ReportRow, same_key, combined}
use mandare.Evals.Report.Latest.{row_under, last_under}
use mandare.Evals.Report.Ordered.{IsIncreasing, combined-IsIncreasing}
use mandare.Evals.Main.{Finished, Session, result_row, main, main_reports}
use mandare.Tests.Fixtures.{fixed_host, counting, bare}
use mandare.Tests.Sessions.{agent, turn_spec, task, turn_draws, refining}

abbrev scored : String → ℕ → ReportRow
scored task_id score = record {
  task_id = task_id;
  model = "scripted";
  turns_attempted = 4;
  turns_passed = score;
  turns_blocked = some 0;
  first_regression_turn = none;
  mst_score = score;
  score_is_meaningful = some true;
}

combined-IsIncreasing_example :
    IsIncreasing (scored "t1" 4 ∷ scored "t2" 2 ∷ scored "t3" 3 ∷ [])
    × (row_under
          ("t2", "scripted")
          (combined (scored "t3" 3 ∷ scored "t2" 1 ∷ []) (scored "t2" 2 ∷ scored "t1" 4 ∷ []))
        ≡ some (scored "t2" 2))
unfolding combined mandare.Evals.Report.merge_row last_under same_key
    mandare.Evals.Report.key_compare
combined-IsIncreasing_example =
    combined-IsIncreasing (scored "t3" 3 ∷ scored "t2" 1 ∷ []) (scored "t2" 2 ∷ scored "t1" 4 ∷ [])
      ("t2", "scripted")

abbrev regressed : Session fixed_host counting bare agent task
regressed = record {
  score = record {
    task_id = "t1";
    turns_attempted = 1;
    turns_passed = 0;
    first_regression_turn = some 1;
    mst_score = 0;
  };
  turns_blocked = 0;
  score_is_meaningful = true;
  events =
      record {
        task_id = "t1";
        turn = "1";
        change_type = "refactor";
        state_hash_before = "ab12";
        state_hash_after = "ab12";
        tests_passed = some false;
        policy_decision = deny;
        verification_status = failed;
        regression_detected = true;
      }
      ∷ [];
  posture_start = normal;
  posture_end = normal;
}

abbrev reported : Finished
reported = record {
  report = result_row fixed_host counting bare agent task regressed ∷ scored "t2" 2 ∷ [];
  status = 0;
}

main_reports_example :
    (r : Session fixed_host counting bare agent task) × ((run_session fixed_host counting bare agent
        "agent:eval:scripted" task 0
        ((turn_spec, turn_draws) ∷ [])
        refining).0
      ≡ ok r)
    × (true ≡ any verified (map (λ (e : Event). e.tests_passed) r.events))
    × (some (scored "t2" 2) ≡ some (scored "t2" 2))
unfolding main run_session mandare.Runtime.evaluate mandare.Prelude.lookup
    mandare.PolicyStore.list_rules mandare.PolicyStore.validate mandare.Schemas.to_decision
    mandare.Policy.evaluate mandare.Policy.Rules.ordered_rules mandare.Policy.Rules.is_catch_all
    mandare.Policy.Rules.rule_matches mandare.Storage.Chain.append_chained
    mandare.Values.Normal.normalize_fields mandare.Values.get_field mandare.Storage.Chain.tail_hash
    mandare.Audit.new_record mandare.Values.Normal.sha256_digest
    mandare.Governance.Posture.posture_severity combined mandare.Evals.Report.insert_row
    mandare.Evals.Report.key_compare mandare.Evals.Report.merge_row mandare.Evals.Report.merge_rows
    same_key mandare.Evals.Report.sorted_rows mandare.Evals.Score.first_at
    mandare.Evals.Score.score_session mandare.Evals.after_gate mandare.Evals.refined
    mandare.Evals.run_turn mandare.Evals.run_turns mandare.Evals.session_result
    mandare.Governance.Posture.at_least_posture mandare.Governance.Posture.next_posture
    mandare.Governance.Posture.posture_for_denials mandare.Governance.Reflexive.observe
    mandare.Governance.Telemetry.denial_count mandare.Governance.Telemetry.evict
    mandare.Governance.Telemetry.recent mandare.Governance.Telemetry.record_event
    mandare.Graph.record_edge mandare.Policy.Rules.allowed mandare.Policy.Rules.catch_all_rules
    mandare.Policy.Rules.comparable mandare.Policy.Rules.fits_pattern mandare.Policy.Rules.host
    mandare.Policy.Rules.insert_rule mandare.Policy.Rules.sorted_rules
    mandare.Policy.Rules.specificity mandare.Policy.constrain mandare.Policy.decide_by
    mandare.Policy.deny_with mandare.Policy.fallback mandare.Policy.first_match
    mandare.Policy.refused_host mandare.Prelude.before_slash mandare.Prelude.drop_first
    mandare.Prelude.is_prefix mandare.Prelude.is_suffix mandare.Prelude.lower mandare.Runtime.decide
    mandare.Runtime.log_decision mandare.Runtime.log_transition mandare.Runtime.profile
    mandare.Runtime.record_decision mandare.Runtime.take_in mandare.Schemas.decision_value
    mandare.Schemas.posture_value mandare.Storage.Chain.envelope_hash
    mandare.Storage.Chain.last_line mandare.Storage.append_plain mandare.Storage.jsonable
    mandare.Values.Normal.canonical_json mandare.Values.Normal.normalize_for_json
    mandare.Values.as_dict mandare.Values.py_str mandare.Values.set_field row_under last_under
main_reports_example =
    main_reports fixed_host counting bare agent task (scored "t2" 2 ∷ []) 0
      ((turn_spec, turn_draws) ∷ []) refining reported ("t2", "scripted") refl
