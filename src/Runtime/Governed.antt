-- ===== src/Runtime/Governed.antt =====
-- The governed operations of src/rif_runtime/runtime.py: Metasploit intents and capabilities.
use mandare.Prelude.{
  ℕ, String, Bool, true, Option, none, some, ◌==◌, text_append, if◌then◌else◌, Result,
}
use mandare.Schemas.{is_allow, posture_value, decision_value, PolicyRequest, PolicyDecision}
use mandare.Values.{Value, text, dict, Fields, end, field, Host}
use mandare.Graph.{MultiDiGraph}
use mandare.Governance.Posture.{escalate_posture}
use mandare.Storage.{append_plain}
use mandare.Mcp.Intent.{
  GovernanceMode, MetasploitIntent, CapabilityToken, EvidenceEvent, GovernanceOutcome,
}
use mandare.Mcp.Governor.{evaluate as governor_evaluate}
use mandare.Capabilities.{
  Capability, CapabilityRecord, CapabilityStatus, discovered, identified, inspected, scanned,
  evaluated, admitted, available, revoked, ExecutionStatus, pending, running, succeeded, failed,
  denied, ExecutionManifest, ExecutionResult, register, admit, kernel_execute,
}
use mandare.Runtime.State.{Runtime, Draws, Action, pure, lift, gets, modify, ◌>>=◌, ◌>>◌}
use mandare.Runtime.{take_in, log_decision, log_transition, evidence_dump, evaluate}

abbrev pub status_value : CapabilityStatus → String
status_value discovered = "discovered"
status_value identified = "identified"
status_value inspected = "inspected"
status_value scanned = "scanned"
status_value evaluated = "evaluated"
status_value admitted = "admitted"
status_value available = "available"
status_value revoked = "revoked"

abbrev pub execution_value : ExecutionStatus → String
execution_value pending = "pending"
execution_value running = "running"
execution_value succeeded = "succeeded"
execution_value failed = "failed"
execution_value denied = "denied"

-- `manifest.target or manifest.capability`
abbrev pub target_of : ExecutionManifest → String
target_of m = elim m.target [ none ↦ m.capability | some t ↦ if t == "" then m.capability else t ]

-- The request that stands for a manifest.
abbrev pub request_of : ExecutionManifest → PolicyRequest
request_of m = record { actor = m.actor; action = m.action; target = target_of m; reason = none }

module _ (host : Host) (nx : MultiDiGraph) where
  -- `decision.model_dump(mode="json")`
  abbrev pub json_dump : PolicyDecision → Value
  json_dump d = dict (
      field "decision" (text (decision_value d.decision)) (
        field "actor" (text d.actor) (
          field "action" (text d.action) (
            field "target" (text d.target) (
              field "environment" (text d.environment) (
                field "posture" (text (posture_value d.posture)) (
                  field "reason" (text d.reason) (
                    field "matched_rule" (text d.matched_rule)
                      (field "timestamp" (text (host.isoformat d.timestamp)) end)))))))))

  -- The record of a denial in capability_evidence.jsonl.
  abbrev pub denial_row : ExecutionManifest → PolicyDecision → Fields
  denial_row m d = field "event" (text "execution_denied") (
      field "manifest_id" (text m.manifest_id)
        (field "capability" (text m.capability) (field "policy_decision" (json_dump d) end)))

  -- The record of an execution.
  abbrev pub execution_row :
      ExecutionManifest → CapabilityRecord → PolicyDecision → ExecutionResult → Fields
  execution_row m r d result = field "event" (text "execution_completed") (
      field "manifest_id" (text m.manifest_id) (
        field "capability" (text m.capability) (
          field "capability_status" (text (status_value r.status)) (
            field "policy_decision" (json_dump d) (
              field "result"
                (dict (
                  field "status" (text (execution_value result.status)) (
                    field "message" (text result.message) (
                      field "output" (dict result.output) (
                        field "metadata" (dict result.metadata) (
                          field "completed_at" (text (host.isoformat result.completed_at)) end))))))
                end)))))

  abbrev pub log_capability : Fields → Action nx.Graph (Unit {0})
  log_capability fs =
      modify (λ s. record s { capability_evidence = append_plain host fs s.capability_evidence })

  -- `register_capability`
  unfoldable pub register_capability : Capability → CapabilityRecord → Action nx.Graph (Unit {0})
  register_capability capability r = do
    s ← gets (λ t. t)
    registry ← lift (register capability (some r) s.registry)
    modify (λ t. record t { registry = registry })

  -- `self.capability_registry.admit(name)`
  unfoldable pub admit_capability : String → Action nx.Graph CapabilityRecord
  admit_capability name = do
    s ← gets (λ t. t)
    out ← lift (admit name s.registry)
    modify (λ t. record t { registry = out.1 })
    pure out.0

  abbrev pub denied_result : ExecutionManifest → PolicyDecision → ℕ → ExecutionResult
  denied_result m d completed_at = record {
    status = denied;
    message = text_append "policy denied: " d.reason;
    output = end;
    metadata = field "manifest_id" (text m.manifest_id) end;
    completed_at = completed_at;
  }

  -- What follows an `allow`: admission, execution, evidence.
  unfoldable pub run_admitted : ExecutionManifest → PolicyDecision → Action nx.Graph ExecutionResult
  unfolding admit_capability
  run_admitted m d = do
    r ← admit_capability m.capability
    s ← gets (λ t. t)
    result ← lift (kernel_execute m s.registry)
    log_capability (execution_row m r d result)
    pure result

  -- `execute_capability`; the metadata of a manifest goes into the context of the request, which
  -- nothing reads.
  unfoldable pub execute_capability :
      (String → Result (Option String))
      → Draws
      → ExecutionManifest
      → Action nx.Graph ExecutionResult
  unfolding run_admitted
  execute_capability hostname draws m = do
    d ← evaluate host nx hostname draws (request_of m) true
    if is_allow d.decision
        then run_admitted m d
        else (do log_capability (denial_row m d); pure (denied_result m d draws.now))

  -- `if outcome.severe: self.posture = escalate_posture(self.posture)`
  abbrev pub escalate_if : Bool → Runtime nx.Graph → Runtime nx.Graph
  escalate_if severe s = record s {
    posture = if severe then escalate_posture s.posture else s.posture;
  }

  -- `self.evidence_store.append(outcome.evidence.model_dump())`
  abbrev pub log_evidence : EvidenceEvent → Action nx.Graph (Unit {0})
  log_evidence e =
      modify (λ s. record s { evidence = append_plain host (evidence_dump e) s.evidence })

  -- The recording part of `evaluate_metasploit`.
  unfoldable pub record_outcome : Draws → GovernanceOutcome → Action nx.Graph GovernanceOutcome
  record_outcome draws outcome = do
    old ← gets (λ s. s.posture)
    modify (take_in host nx draws outcome.decision)
    modify (escalate_if outcome.severe)
    log_decision host nx draws outcome.decision
    log_evidence outcome.evidence
    log_transition host nx old
    pure outcome

  -- `evaluate_metasploit`
  unfoldable pub evaluate_metasploit :
      String
      → Draws
      → MetasploitIntent
      → GovernanceMode
      → Option CapabilityToken
      → Bool
      → Action nx.Graph GovernanceOutcome
  unfolding record_outcome
  evaluate_metasploit signing_key draws intent mode token recording = do
    s ← gets (λ t. t)
    outcome ← lift (
        governor_evaluate host signing_key intent mode s.environment_name s.posture token draws.now
          draws.stamp draws.decision_id)
    if recording then record_outcome draws outcome else pure outcome
