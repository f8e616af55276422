-- ===== src/Api/State.antt =====
-- What the routes of src/rif_runtime/api.py share: the deployment, the state, calls and responses.
use mandare.Prelude.{ℕ, String, Bool, Option, List, Dict, Result, Error}
use mandare.Values.{Value, Fields, Host}
use mandare.Schemas.{Posture, PolicyRequest, PolicyDecision, EnvironmentProfile}
use mandare.Auth.{Reply, Environ}
use mandare.Supabase.{SupabasePackage, Tables}
use mandare.Runs.{RunRequest, RunRecord}
use mandare.Policy.Rules.{PolicyRule}
use mandare.Graph.{MultiDiGraph}
use mandare.Governance.Drift.{Floats, Scanner, DriftVector}
use mandare.Mcp.Intent.{GovernanceMode, MetasploitIntent, CapabilityToken, GovernanceOutcome}
use mandare.Runtime.State.{Runtime, Draws}
use mandare.Runtime.Summaries.{
  GraphSummary, TelemetrySummary, PersistedSummary, AuditSummary, RecoveredState,
}

-- What a process is started with, and what other packages compute for it: `parse_intent`,
-- `parse_mode` and `parse_token` are `model_validate` and the enum of a free value, `to_int` is
-- `int(value)` for one that is not negative, and `same_key` is `==` on the keys of a dict.
pub record Deployment : Type 1 where
  pub host : Host
  pub nx : MultiDiGraph
  pub hostname : String → Result (Option String)
  pub env : Environ
  pub supabase : SupabasePackage
  pub signing_key : String
  pub floats : Floats
  pub scanner : Scanner
  pub parse_intent : Value → Result MetasploitIntent
  pub parse_mode : Value → Result GovernanceMode
  pub parse_token : Value → Result CapabilityToken
  pub to_int : Value → Result ℕ
  pub same_key : Value → Value → Bool
  -- `bool(value)`, and `str(exc)`
  pub is_truthy : Value → Bool
  pub str_error : Error → String

-- The runtime, and the remote tables.
pub record Service (G : Type 0) : Type 0 where
  pub runtime : Runtime G
  pub remote : Tables

abbrev pub Handler : Type 0 → Type 0 → Type 0
Handler G A = Service G → Reply A × Service G

pub record Headers : Type 0 where
  pub x_api_key : Option String
  pub bearer : Option String

-- What one request draws, beside what its call of the runtime draws.
pub record ApiDraws : Type 0 where
  pub draws : Draws
  pub run_id : String
  pub created_at : ℕ
  pub token_id : String
  pub issued : ℕ

pub data Call : Type 0 where
  health environments root graph_summary telemetry_summary audit : Call
  metasploit_capabilities persistence_summary recovered_state drift_recommend list_policies : Call
  reset_posture : Call
  set_environment : String → Call
  set_posture : Posture → Call
  evaluate : PolicyRequest → Call
  mcp_invoke : Fields → Call
  metasploit_evaluate : Fields → Call
  metasploit_token : Fields → Call
  upsert_policy : String → PolicyRule → Call
  delete_policy : String → Call
  create_run : RunRequest → Call

pub data Response (fl : Floats) : Type 0 where
  status_of : String → Posture → Response fl
  environments_are : String → Dict EnvironmentProfile → Response fl
  routes_are : List String → Response fl
  current : String → Response fl
  posture_is : Posture → Response fl
  decided : PolicyDecision → Response fl
  graph_is : GraphSummary → Response fl
  telemetry_is : TelemetrySummary → Response fl
  audited : String → AuditSummary → Response fl
  catalog : String → String → List String → List String → List String → Response fl
  governed : GovernanceOutcome → Posture → Response fl
  minted : CapabilityToken → Response fl
  persisted : PersistedSummary → Response fl
  recovered : RecoveredState → Response fl
  drifted : DriftVector fl → Posture → Response fl
  rules_are : List PolicyRule → Response fl
  rule_is : PolicyRule → Response fl
  deleted : Bool → Response fl
  run_is : RunRecord → Response fl
