-- ===== src/Tests/Processes.antt =====
-- The theorems on the start of a process and on the commands, at concrete settings.
use mandare.Prelude.{
  ℕ, ◌≤◌, String, ◌≡◌, refl, true, false, Option, none, some, List, [], ◌∷◌, Result, ok,
}
use mandare.Schemas.{normal, locked, deny, PolicyDecision}
use mandare.Values.{dict}
use mandare.Audit.{genesis_hash, with_hash}
use mandare.Storage.{row}
use mandare.Storage.Chain.{append_chained, chained_row}
use mandare.Governance.Posture.{posture_severity}
use mandare.Config.{pos, RifSettings, safe_summary}
use mandare.Config.Start.{RuntimeConfig}
use mandare.Runtime.State.{Runtime}
use mandare.Runtime.{model_dump, evaluate}
use mandare.Runtime.Execution.{IsAnswer}
use mandare.Startup.{
  Process, Surroundings, App, loaded_from, get_settings, runtime_from, import_api, config_lifespan,
  configuration_loaded, configuration_invalid, fresh,
}
use mandare.Startup.Settled.{logged, config_lifespan_settled, import_api-eq-imported}
use mandare.CommandLine.{check, check_request}
use mandare.CommandLine.Logged.{check_logged}
use mandare.Tests.Fixtures.{fixed_host, counting, bare, draws}
use mandare.Tests.Settings.{casts, file, env, settings, empty_directory, running}

abbrev here : Surroundings
here = record { file = some (ok file); env = env }

-- The file is gone, and the environment is empty.
abbrev elsewhere : Surroundings
elsewhere = record { file = none; env = [] }

abbrev no_environments : String → Option (Result RuntimeConfig)
no_environments config_dir = none

abbrev app : App ℕ
app = record { runtime = running; root_path = ""; settings = none }

config_lifespan_settled_example :
    (s : RifSettings) × (loaded_from casts here ≡ ok s)
    × (runtime_from casts counting no_environments empty_directory none s ≡ ok running)
    × ("" ≡ s.server.root_path)
    × (config_lifespan casts counting no_environments empty_directory elsewhere app
          (logged (some settings) [])
        ≡ (
          ok (record app { settings = some s }),
          logged (some s) (configuration_loaded (safe_summary s) ∷ []),
        ))
unfolding import_api mandare.Config.Load.load_settings mandare.Prelude.lookup mandare.Prelude.insert
    mandare.Schemas.to_posture mandare.Config.blank_environment_is_unset mandare.Prelude.strip
    mandare.Config.port_range runtime_from mandare.Config.Start.start
    mandare.Runtime.Restore.restore_posture mandare.Storage.read_plain
    mandare.Runtime.Restore.last_posture mandare.Runtime.Restore.recover_posture
    mandare.Storage.read_all mandare.Runtime.Restore.denials_in
    mandare.Governance.Posture.at_least_posture mandare.Governance.Posture.posture_for_denials
    mandare.Config.Load.apply_override mandare.Config.Load.apply_overrides
    mandare.Config.Load.coerce_env_value mandare.Config.Load.set_in
    mandare.Config.Start.configured_environment mandare.Config.Start.load_config
    mandare.Config.blank_uses_default mandare.Config.field_of mandare.Config.forbid_extra
    mandare.Config.model_validate mandare.Config.paths_section mandare.Config.provider_section
    mandare.Config.runtime_section mandare.Config.section_of mandare.Config.server_section
    posture_severity mandare.PolicyStore.ensure_required mandare.PolicyStore.insert_missing
    mandare.PolicyStore.is_catch_all_row mandare.PolicyStore.missing_from mandare.PolicyStore.repair
    mandare.Prelude.lower mandare.Runtime.Restore.posture_of_row
    mandare.Runtime.Restore.restored_posture mandare.Startup.configuration_diagnostics
    mandare.Startup.diagnose get_settings mandare.Startup.kept mandare.Startup.new_runtime
    mandare.Startup.validate_config mandare.Storage.breaks mandare.Storage.read_line
    mandare.Values.as_dict mandare.Values.get_field mandare.Values.is_text
config_lifespan_settled_example =
    config_lifespan_settled casts counting no_environments empty_directory here elsewhere elsewhere
      elsewhere app (logged (some settings) []) refl

-- A posture that there is not.
abbrev misconfigured : Surroundings
misconfigured = record { file = some (ok file); env = ("RIF_POSTURE", "open") ∷ [] }

import_api-eq-imported_example :
    import_api casts counting no_environments empty_directory misconfigured here here fresh
    ≡ (mandare.Prelude.err mandare.Prelude.config_error, logged none (configuration_invalid ∷ []))
unfolding import_api mandare.Startup.Settled.imported mandare.Config.Load.load_settings
    mandare.Prelude.lookup mandare.Prelude.insert mandare.Schemas.to_posture
import_api-eq-imported_example =
    import_api-eq-imported casts counting no_environments empty_directory misconfigured here here

abbrev locked_answer : PolicyDecision
locked_answer = record {
  decision = deny;
  actor = "agent";
  action = "http.request";
  target = "evil.example";
  environment = "edge";
  posture = locked;
  reason = "runtime locked";
  matched_rule = "posture.locked";
  timestamp = 8;
}

abbrev after_check : Runtime ℕ
after_check =
    (evaluate fixed_host counting bare draws (check_request "agent" "http.request" "evil.example")
      true running).1

check_logged_example :
    (s : RifSettings) × (r : Runtime ℕ) × (get_settings casts here fresh
      ≡ (ok s, logged (some settings) []))
    × (runtime_from casts counting no_environments empty_directory none s ≡ ok r)
    × (posture_severity s.runtime.posture ≤ posture_severity r.posture)
    × IsAnswer fixed_host counting bare draws
        (check_request "agent" "http.request" "evil.example")
        r
        locked_answer
    × (append_chained fixed_host "e1" "2026" (model_dump locked_answer) []
        ≡ ok after_check.decisions)
unfolding check mandare.Startup.new_runtime mandare.Config.Load.load_settings mandare.Prelude.lookup
    mandare.Prelude.insert mandare.Schemas.to_posture mandare.Config.blank_environment_is_unset
    mandare.Prelude.strip mandare.Config.port_range runtime_from mandare.Config.Start.start
    mandare.Runtime.Restore.restore_posture mandare.Storage.read_plain
    mandare.Runtime.Restore.last_posture mandare.Runtime.Restore.recover_posture
    mandare.Storage.read_all mandare.Runtime.Restore.denials_in mandare.Runtime.evaluate
    mandare.PolicyStore.list_rules mandare.PolicyStore.ensure_required mandare.PolicyStore.repair
    mandare.PolicyStore.validate mandare.Schemas.to_decision mandare.Policy.evaluate
    mandare.Governance.Posture.at_least_posture mandare.Governance.Posture.posture_for_denials
    append_chained mandare.Values.Normal.normalize_fields mandare.Values.get_field
    mandare.Storage.Chain.tail_hash mandare.Audit.new_record mandare.Values.Normal.sha256_digest
    mandare.Governance.Reflexive.observe mandare.Governance.Posture.next_posture
    mandare.Governance.Telemetry.denial_count mandare.Governance.Telemetry.record_event
check_logged_example =
    check_logged fixed_host counting bare draws casts no_environments empty_directory here "agent"
      "http.request" "evil.example" fresh (logged (some settings) []) locked_answer after_check refl
