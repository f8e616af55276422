-- ===== src/Api.antt =====
-- src/rif_runtime/api.py: the HTTP routes over one runtime. The body and the path of a request are
-- parsed by FastAPI, so a call carries them typed, except where a route takes a free dict and looks
-- into it itself. `agents/auditor.py` adds a fixed name to the audit summary.
pub mod State
pub mod Guards
pub mod Payloads
pub mod Creation
pub mod Guarded
pub mod Approval
use mandare.Prelude.{
  ℕ, String, Bool, true, false, not, ◌==◌, ◌||◌, Option, none, some, List, [], ◌∷◌, Dict,
  text_append, first_chars, if◌then◌else◌, Error, Result, ok, err, value_error, type_error, ◌>>=◌,
}
use mandare.Values.{Value, null, number, text, dict, Fields, get_field, Host}
use mandare.Schemas.{
  Decision, Posture, normal, is_allow, decision_value, PolicyRequest, PolicyDecision,
  EnvironmentProfile,
}
use mandare.Auth.{Reply, returned, refused, raised, Environ, require_api_key, require_read_api_key}
use mandare.Supabase.{Tables, verify_jwt, write_run, write_evidence}
use mandare.Runs.{RunStatus, policy_approved, denied, run_status_value, RunRequest, RunRecord}
use mandare.Policy.Rules.{PolicyRule}
use mandare.PolicyStore.{list_rules, upsert, delete}
use mandare.Graph.{MultiDiGraph}
use mandare.Governance.Drift.{from_events, recommend_correction}
use mandare.Governance.Telemetry.{recent}
use mandare.Mcp.Capabilities.{
  contract_version, contract_hash, read_only_capabilities, consequential_capabilities,
  severe_capabilities,
}
use mandare.Mcp.Intent.{
  GovernanceMode, read_only_firewall, MetasploitIntent, CapabilityToken, GovernanceOutcome,
}
use mandare.Mcp.Governor.{mint_token}
use mandare.Runtime.State.{Runtime, Draws, Action}
use mandare.Runtime.{
  evaluate as runtime_evaluate, set_posture as runtime_set_posture,
  set_environment as runtime_set_environment,
}
use mandare.Runtime.Governed.{evaluate_metasploit, json_dump}
use mandare.Mcp.Intent.{intent_hash}
use mandare.Runtime.Summaries.{
  graph_summary as runtime_graph, telemetry_summary as runtime_telemetry, recover,
}
use mandare.Runtime.Audits.{
  undisturbed, persisted_summary as runtime_persisted, audit_summary as runtime_audit,
}
use mandare.Api.State.{
  Deployment, Service, Handler, Headers, ApiDraws, Call, Response, status_of, environments_are,
  routes_are, current, posture_is, decided, graph_is, telemetry_is, audited, catalog, governed,
  minted, persisted, recovered, drifted, rules_are, rule_is, deleted, run_is,
}
use mandare.Api.Guards.{
  is_value_error, is_type_error, Route, answer, reply_of, call, control_plane, read_plane,
  require_identity,
}
use mandare.Api.Payloads.{mcp_invoke, metasploit_evaluate, token_reply}
use mandare.Api.Creation.{create_run}

module _ (dep : Deployment) where
  -- `set_environment`: an unknown name is a 404.
  abbrev pub not_found_for : Error → Reply (Response dep.floats)
  not_found_for e = if is_value_error e then refused 404 (dep.str_error e) else raised e

  unfoldable pub set_environment : String → Route dep
  set_environment name s = after (runtime_set_environment dep.host dep.nx name s.runtime)
    where
      after :
          Result (Unit {0}) × Runtime dep.nx.Graph
          → Reply (Response dep.floats) × Service dep.nx.Graph
      after (ok _, t) = (returned (current t.environment_name), record s { runtime = t })
      after (err e, t) = (not_found_for e, record s { runtime = t })

  -- `upsert_policy`: the identifier of the path wins.
  unfoldable pub upsert_policy : String → PolicyRule → Route dep
  upsert_policy rule_id rule s =
      let r : PolicyRule = if rule.id == rule_id then rule else record rule { id = rule_id } in
      elim (upsert r s.runtime.policy_rows) [
        | err e ↦ (raised e, s)
        | ok rows ↦
            (returned (rule_is r), record s { runtime = record (s.runtime) { policy_rows = rows } })
      ]

  unfoldable pub delete_policy : String → Route dep
  delete_policy rule_id s = elim (delete rule_id s.runtime.policy_rows) [
    | err e ↦ (raised e, s)
    | ok (rows, was_there) ↦ (
      returned (deleted was_there),
      record s { runtime = record (s.runtime) { policy_rows = rows } },
    )
  ]

  unfoldable pub drift_reply : ℕ → Service dep.nx.Graph → Reply (Response dep.floats)
  drift_reply now s =
      reply_of dep (λ v. drifted v (recommend_correction dep.floats v))
        (from_events dep.floats dep.scanner (recent now 60 s.runtime.telemetry))

  abbrev pub root_routes : List String
  root_routes = "/health" ∷ "/docs" ∷ "/v1/environments" ∷ "/v1/policy/evaluate" ∷ []

  -- `capability_catalog` of src/rif_runtime/mcp/capabilities.py
  unfoldable pub capability_catalog : Result (Response dep.floats)
  capability_catalog = do
    h ← contract_hash dep.host
    ok (
        catalog contract_version h read_only_capabilities consequential_capabilities
          severe_capabilities)

  -- The routes, each with its guard.
  unfoldable pub dispatch : Headers → ApiDraws → Call → Route dep
  dispatch headers fresh Call.health =
      answer dep (λ s. returned (status_of s.runtime.environment_name s.runtime.posture))
  dispatch headers fresh Call.environments =
      answer dep
        (λ s. returned (environments_are s.runtime.environment_name s.runtime.environments))
  dispatch headers fresh Call.root = answer dep (λ s. returned (routes_are root_routes))
  dispatch headers fresh (Call.set_environment name) =
      control_plane dep headers (set_environment name)
  dispatch headers fresh (Call.evaluate req) =
      control_plane dep headers
        (call dep decided (runtime_evaluate dep.host dep.nx dep.hostname fresh.draws req true))
  dispatch headers fresh Call.reset_posture =
      control_plane dep headers (call dep posture_is (runtime_set_posture dep.host dep.nx normal))
  dispatch headers fresh (Call.set_posture p) =
      control_plane dep headers (call dep posture_is (runtime_set_posture dep.host dep.nx p))
  dispatch headers fresh Call.graph_summary =
      read_plane dep headers
        (answer dep (λ s. returned (graph_is (runtime_graph dep.host dep.nx s.runtime))))
  dispatch headers fresh Call.telemetry_summary = read_plane dep headers (
      answer dep (λ s.
        returned (telemetry_is (runtime_telemetry dep.host dep.nx fresh.draws.now s.runtime))))
  dispatch headers fresh Call.audit = read_plane dep headers (
      answer dep (λ s. reply_of dep (audited "agent:auditor") (
        undisturbed s.runtime.decisions
          (runtime_audit dep.host dep.nx dep.same_key fresh.draws.now s.runtime))))
  dispatch headers fresh (Call.mcp_invoke payload) = mcp_invoke dep fresh.draws payload
  dispatch headers fresh Call.metasploit_capabilities =
      answer dep (λ s. reply_of dep (λ r. r) capability_catalog)
  dispatch headers fresh (Call.metasploit_evaluate payload) =
      metasploit_evaluate dep fresh.draws payload
  dispatch headers fresh (Call.metasploit_token payload) =
      control_plane dep headers (answer dep (λ s. token_reply dep fresh payload))
  dispatch headers fresh Call.persistence_summary = read_plane dep headers (
      answer dep (λ s. reply_of dep persisted (
        undisturbed s.runtime.decisions
          (runtime_persisted dep.host dep.nx dep.same_key none s.runtime))))
  dispatch headers fresh Call.recovered_state = read_plane dep headers (
      answer dep
        (λ s. reply_of dep recovered (recover dep.host dep.nx fresh.draws.now s.runtime.decisions)))
  dispatch headers fresh Call.drift_recommend =
      read_plane dep headers (answer dep (drift_reply fresh.draws.now))
  dispatch headers fresh Call.list_policies =
      read_plane dep headers
        (answer dep (λ s. reply_of dep rules_are (list_rules s.runtime.policy_rows)))
  dispatch headers fresh (Call.upsert_policy rule_id rule) =
      control_plane dep headers (upsert_policy rule_id rule)
  dispatch headers fresh (Call.delete_policy rule_id) =
      control_plane dep headers (delete_policy rule_id)
  dispatch headers fresh (Call.create_run req) = create_run dep headers fresh req
