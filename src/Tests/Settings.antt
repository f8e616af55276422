-- ===== src/Tests/Settings.antt =====
-- The theorems on the settings, the start and the bytes of a log, at concrete files.
use mandare.Prelude.{
  ℕ, String, ◌≡◌, refl, Bool, true, false, Option, none, some, List, [], ◌∷◌, map, lookup, arith,
  Result, ok, err,
}
use mandare.Values.{dict, end}
use mandare.Schemas.{normal, locked, deny, is_allow, PolicyDecision}
use mandare.Auth.{Environ}
use mandare.Config.{
  pos, Setting, integer, text, Toml, Casts, table, local, RifSettings, field_of, section_of,
  forbid_extra,
}
use mandare.Config.Load.{load_settings, env_map, apply_overrides}
use mandare.Config.Overrides.{value_at, overlaid, variable_for, env_overrides_win}
use mandare.Config.Valid.{IsValid, load_settings-IsValid}
use mandare.Config.Start.{RuntimeConfig, default_profile, DataDirectory, start, started}
use mandare.Config.Start.Floor.{locked_start_allows_nothing}
use mandare.Storage.{Line, damaged}
use mandare.Storage.Chain.{tail_hash}
use mandare.Storage.Chain.Window.{search_tail, Bytes, split_lines, line_of, tail_hash_bytes}
use mandare.Storage.Chain.Doubling.{search_tail-last_filled, tail_hash_bytes-eq-tail_hash}
use mandare.Runtime.State.{Runtime}
use mandare.Runtime.{evaluate}
use mandare.Runtime.Calls.{idle}
use mandare.Tests.Fixtures.{fixed_host, counting, bare, fetch_from, draws}

-- A parser of numbers that knows one numeral.
abbrev pub casts : Casts
casts = record {
  parse_int = λ s. some (pos 9000);
  as_int = λ v. elim v [ integer n ↦ some n | _ ↦ none ];
  as_bool = λ v. none;
}

abbrev pub file : Toml
file = ("server", table (("port", integer (pos 80)) ∷ [])) ∷ ("runtime", table []) ∷ []

abbrev pub env : Environ
env = ("RIF_POSTURE", "locked") ∷ ("RIF_ENVIRONMENT", " edge ") ∷ ("RIF_SERVER_PORT", "9000") ∷ []

abbrev overlaid_file : Toml
overlaid_file =
    ("server", table (("port", integer (pos 9000)) ∷ []))
    ∷ ("runtime", table (("posture", text "locked") ∷ ("environment", text " edge ") ∷ []))
    ∷ []

abbrev pub settings : RifSettings
settings = record {
  runtime = record { posture = locked; environment = some "edge"; cloud_egress = false };
  server = record { host = "127.0.0.1"; port = pos 9000; root_path = "" };
  provider = record { mode = local; model = "default"; endpoint = "" };
  paths = record { data_dir = "data"; config_dir = "config" };
}

env_overrides_win_example :
    overlaid casts env "server" "port"
      (variable_for casts env "server" "port" env_map)
      (value_at "server" "port" file)
    ≡ ok (value_at "server" "port" overlaid_file)
unfolding apply_overrides lookup mandare.Prelude.insert
env_overrides_win_example = env_overrides_win casts env file overlaid_file "server" "port" refl

load_settings-IsValid_example : IsValid settings
unfolding load_settings lookup mandare.Prelude.insert mandare.Schemas.to_posture
    mandare.Config.blank_environment_is_unset mandare.Prelude.strip mandare.Config.port_range
load_settings-IsValid_example = load_settings-IsValid casts (some (ok file)) env settings refl

abbrev pub empty_directory : String → DataDirectory
empty_directory name = record {
  policies = none;
  decisions = [];
  posture_history = [];
  evidence = [];
  capability_evidence = [];
}

abbrev pub only_edge : RuntimeConfig
only_edge = record { default_environment = "edge"; environments = ("edge", default_profile) ∷ [] }

abbrev pub running : Runtime ℕ
running = started counting only_edge "edge" (empty_directory "data") locked

abbrev locked_answer : PolicyDecision
locked_answer = record {
  decision = deny;
  actor = "agent";
  action = "http.request";
  target = "evil.example";
  environment = "edge";
  posture = locked;
  reason = "runtime locked";
  matched_rule = "posture.locked";
  timestamp = 8;
}

locked_start_allows_nothing_example : is_allow locked_answer.decision ≡ false
unfolding load_settings lookup mandare.Prelude.insert mandare.Schemas.to_posture
    mandare.Config.blank_environment_is_unset mandare.Prelude.strip mandare.Config.port_range start
    mandare.Runtime.Restore.restore_posture mandare.Storage.read_plain
    mandare.Runtime.Restore.last_posture mandare.Runtime.Restore.recover_posture
    mandare.Storage.read_all mandare.Runtime.Restore.denials_in
    mandare.Governance.Posture.at_least_posture mandare.Governance.Posture.posture_for_denials
    evaluate mandare.Runtime.profile mandare.PolicyStore.list_rules
    mandare.PolicyStore.ensure_required mandare.PolicyStore.repair mandare.PolicyStore.missing_from
    mandare.PolicyStore.validate mandare.Policy.evaluate mandare.Schemas.to_decision
locked_start_allows_nothing_example =
    locked_start_allows_nothing casts (some (ok file)) env settings fixed_host counting none none
      empty_directory running running bare draws (fetch_from "evil.example") false locked_answer
      refl refl refl idle refl

-- Two lines, of which the last is blank.
abbrev log_bytes : Bytes
log_bytes = 123 ∷ 125 ∷ 10 ∷ 32 ∷ []

tail_hash_bytes-eq-tail_hash_example :
    tail_hash_bytes fixed_host (λ l. some (dict end)) log_bytes
    ≡ some (tail_hash fixed_host (map (line_of (λ l. some (dict end))) (split_lines log_bytes)))
tail_hash_bytes-eq-tail_hash_example =
    tail_hash_bytes-eq-tail_hash fixed_host (λ l. some (dict end)) log_bytes

-- A window of one byte doubles until it holds the line.
search_tail-last_filled_example : search_tail 4 1 log_bytes ≡ some (some (123 ∷ 125 ∷ []))
unfolding search_tail
search_tail-last_filled_example = search_tail-last_filled 4 1 log_bytes (omega arith) (omega arith)
