-- ===== src/Tests/Fixtures.antt =====
-- The data of the tests: a host of fixed answers, requests, rules, profiles.
use mandare.Prelude.{
  ℕ, String, List, ◌+◌, refl, false, Option, none, [], ◌∷◌, ◌==◌, if◌then◌else◌, Result, ok, err,
  value_error,
}
use mandare.Values.{Host, dict}
use mandare.Audit.{with_hash, genesis_hash}
use mandare.Storage.{Line, row}
use mandare.Storage.Chain.{chained_row}
use mandare.Replay.Logged.{dumped}
use mandare.Graph.{MultiDiGraph}
use mandare.Schemas.{allow, deny, PolicyRequest, PolicyDecision, normal, EnvironmentProfile}
use mandare.Policy.Rules.{PolicyRule}
use mandare.Runtime.State.{Runtime, Draws}

abbrev pub fixed_host : Host
fixed_host = record {
  isoformat = λ t. "2026-01-01T00:00:00+00:00";
  encode_bytes = λ b. "AA==";
  dumps = λ v. "{}";
  sha256 = λ s. "ab12";
  hmac_sha256 = λ k s. "cd34";
  str_of = λ v. "1";
}

-- A graph that only counts its edges.
abbrev pub counting : MultiDiGraph
counting = record {
  Graph = ℕ;
  empty = 0;
  add_node = λ n t g. g;
  add_edge = λ e g. g + 1;
  number_of_nodes = λ g. 0;
  number_of_edges = λ g. g;
  edges-empty = refl;
  edges-add_node = λ n t g. refl;
  edges-add_edge = λ e g. refl;
}

-- Bare host names only, and one malformed address.
abbrev pub bare : String → Result (Option String)
bare target = if target == "http://[" then err value_error else ok none

abbrev pub fetch_from : String → PolicyRequest
fetch_from target = record {
  actor = "agent";
  action = "http.request";
  target = target;
  reason = none;
}

abbrev pub limited_profile : EnvironmentProfile
limited_profile = record {
  networking_type = "limited";
  allow_mcp_server_network_access = false;
  allow_package_manager_network_access = false;
  allowed_hosts = "api.anthropic.com" ∷ [];
}

abbrev pub model_rule : PolicyRule
model_rule = record {
  id = "models";
  effect = allow;
  action = "http.request";
  target = "*.anthropic.com";
  reason = "known model API host";
}

abbrev pub open_rule : PolicyRule
open_rule = record {
  id = "open";
  effect = allow;
  action = "*";
  target = "*";
  reason = "everything";
}

abbrev pub decision : PolicyDecision
decision = record {
  decision = deny;
  actor = "agent";
  action = "http.request";
  target = "evil.example";
  environment = "dev";
  posture = normal;
  reason = "host denied: evil.example";
  matched_rule = "network.host.denied";
  timestamp = 7;
}

abbrev pub start : Runtime ℕ
start = record {
  environment_name = "dev";
  environments = ("dev", limited_profile) ∷ [];
  policy_rows = [];
  graph = 0;
  telemetry = record { events = decision ∷ []; max_events = 10 };
  posture = normal;
  decisions = [];
  posture_history = [];
  evidence = [];
  capability_evidence = [];
  registry = record { capabilities = []; records = [] };
}

abbrev pub draws : Draws
draws = record {
  stamp = 8;
  observed = 9;
  event_id = "e1";
  written_at = "2026";
  now = 8;
  decision_id = "d1";
}

abbrev pub logged : List Line
logged =
    row (
      chained_row (dumped fixed_host decision)
        (with_hash "e1" "2026" (dict (dumped fixed_host decision)) genesis_hash "ab12"))
    ∷ []
