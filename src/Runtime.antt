-- ===== src/Runtime.antt =====
-- `RIFRuntime` of src/rif_runtime/runtime.py. A method is a state and exception action: what was written
-- before a raise stays written. The lock makes each method one step. What a call draws from outside
-- (clock, uuid4) is a `Draws`.
pub mod State
pub mod Governed
pub mod Restore
pub mod Calls
pub mod Stable
pub mod Ratchet
pub mod Integrity
pub mod Durable
pub mod DryRun
pub mod Recording
pub mod Execution
pub mod Summaries
pub mod Audits
use mandare.Prelude.{
  ℕ, String, Bool, true, false, not, ◌&&◌, Option, none, some, List, [], ◌∷◌, ◌++◌, ◌==◌, eqb,
  lookup, has_key, text_append, if◌then◌else◌, Result, ok, err, Error, value_error, key_error,
}
use mandare.Schemas.{
  Decision, Posture, is_allow, decision_value, posture_value, PolicyRequest, PolicyDecision,
  EnvironmentProfile,
}
use mandare.Values.{Value, text, datetime, dict, Fields, end, field, Host}
use mandare.Graph.{MultiDiGraph, record_edge}
use mandare.Governance.Posture.{posture_severity, escalate_posture}
use mandare.Governance.Reflexive.{observe}
use mandare.Policy.{evaluate as policy_evaluate}
use mandare.PolicyStore.{list_rules}
use mandare.Storage.{Line, append_plain}
use mandare.Storage.Chain.{append_chained}
use mandare.Mcp.Intent.{
  GovernanceMode, MetasploitIntent, CapabilityToken, GovernanceOutcome, EvidenceEvent,
}
use mandare.Mcp.Governor.{evaluate as governor_evaluate}
use mandare.Capabilities.{
  Capability, CapabilityRecord, CapabilityRegistry, ExecutionManifest, ExecutionResult, denied,
  register, admit, kernel_execute, CapabilityStatus,
}
use mandare.Runtime.State.{Runtime, Draws, Action, pure, lift, gets, modify, when, ◌>>=◌, ◌>>◌}

-- `decision.model_dump()`
abbrev pub model_dump : PolicyDecision → Fields
model_dump d = field "decision" (text (decision_value d.decision)) (
    field "actor" (text d.actor) (
      field "action" (text d.action) (
        field "target" (text d.target) (
          field "environment" (text d.environment) (
            field "posture" (text (posture_value d.posture)) (
              field "reason" (text d.reason) (
                field "matched_rule" (text d.matched_rule)
                  (field "timestamp" (datetime d.timestamp) end))))))))

-- `{"old_posture": str(old), "new_posture": str(new)}`
abbrev pub transition : Posture → Posture → Fields
transition old new =
    field "old_posture" (text (posture_value old))
      (field "new_posture" (text (posture_value new)) end)

-- `old != new`
abbrev pub differs : Posture → Posture → Bool
differs old new = not (eqb (posture_severity old) (posture_severity new))

-- `outcome.evidence.model_dump()`
abbrev pub evidence_dump : EvidenceEvent → Fields
evidence_dump e = field "decision_id" (text e.decision_id) (
    field "intent_hash" (text e.intent_hash) (
      field "tool" (text e.tool) (
        field "requested_capability" (text e.requested_capability) (
          field "policy_decision" (text e.policy_decision) (
            field "scope_id" (text e.scope_id) (
              field "contract_hash" (text e.contract_hash) (
                field "matched_rule" (text e.matched_rule) (
                  field "timestamp" (text e.timestamp)
                    (field "signature" (text e.signature) end)))))))))

module _ (host : Host) (nx : MultiDiGraph) where
  abbrev pub State : Type 0
  State = Runtime nx.Graph

  -- `if old_posture != self.posture: self.posture_store.append(...)`
  unfoldable pub log_transition : Posture → Action nx.Graph (Unit {0})
  log_transition old s =
      if differs old s.posture
      then (
        ok tt,
        record s {
          posture_history = append_plain host (transition old s.posture) s.posture_history;
        },
      )
      else (ok tt, s)

  -- `set_posture`
  unfoldable pub set_posture : Posture → Action nx.Graph Posture
  unfolding log_transition
  set_posture posture s =
      let (r, s') = log_transition s.posture (record s { posture = posture }) in (ok posture, s')

  -- `set_environment`
  unfoldable pub set_environment : String → Action nx.Graph (Unit {0})
  set_environment name s =
      if has_key name s.environments
      then (ok tt, record s { environment_name = name })
      else (err value_error, s)

  -- `self.decisions_store.append(decision.model_dump())`
  unfoldable pub log_decision : Draws → PolicyDecision → Action nx.Graph (Unit {0})
  log_decision draws decision s =
      written
        (append_chained host draws.event_id draws.written_at (model_dump decision) s.decisions)
    where
      written : Result (List Line) → Result (Unit {0}) × Runtime nx.Graph
      written (ok lines) = (ok tt, record s { decisions = lines })
      written (err e) = (err e, s)

  -- The graph and the reflexive loop take a decision in.
  unfoldable pub take_in : Draws → PolicyDecision → Runtime nx.Graph → Runtime nx.Graph
  take_in draws decision s =
      let (telemetry, posture) = observe draws.observed s.telemetry decision s.posture in
      record s {
        graph = record_edge host nx decision s.graph;
        telemetry = telemetry;
        posture = posture;
      }

  -- `record_decision`
  unfoldable pub record_decision : Draws → PolicyDecision → Action nx.Graph PolicyDecision
  unfolding take_in log_decision log_transition
  record_decision draws decision = do
    old ← gets (λ s. s.posture)
    modify (take_in draws decision)
    log_decision draws decision
    log_transition old
    pure decision

  -- `self.profile`
  unfoldable pub profile : Runtime nx.Graph → Result EnvironmentProfile
  profile s = elim (lookup s.environment_name s.environments) [
    | none ↦ err key_error
    | some p ↦ ok p
  ]

  module _ (hostname : String → Result (Option String)) where
    -- The decision that `evaluate` reaches, before it is recorded.
    unfoldable pub decide : Draws → PolicyRequest → Action nx.Graph PolicyDecision
    unfolding profile
    decide draws req = do
      s ← gets (λ t. t)
      p ← lift (profile s)
      rules ← lift (list_rules s.policy_rows)
      lift (policy_evaluate hostname draws.stamp req s.environment_name p s.posture rules)

    -- `evaluate`
    unfoldable pub evaluate : Draws → PolicyRequest → Bool → Action nx.Graph PolicyDecision
    unfolding decide record_decision
    evaluate draws req recording = do
      decision ← decide draws req
      if recording then record_decision draws decision else pure decision
