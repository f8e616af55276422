-- ===== src/Runtime/Calls.antt =====
-- Sequences of calls of the methods of src/rif_runtime/runtime.py.
use mandare.Prelude.{String, Bool, Option, Result}
use mandare.Schemas.{PolicyRequest, PolicyDecision}
use mandare.Values.{Host}
use mandare.Graph.{MultiDiGraph}
use mandare.Mcp.Intent.{GovernanceMode, MetasploitIntent, CapabilityToken}
use mandare.Capabilities.{Capability, CapabilityRecord, ExecutionManifest}
use mandare.Runtime.State.{Runtime, Draws}
use mandare.Runtime.{set_environment, record_decision, evaluate}
use mandare.Runtime.Governed.{register_capability, execute_capability, evaluate_metasploit}

module _ (host : Host) (nx : MultiDiGraph) where
  -- What callers of the runtime do: its methods, one call at a time, whether a call returns or raises.
  -- `set_posture` is not among them.
  pub data Call : Runtime nx.Graph → Runtime nx.Graph → Type 0 where
    evaluated :
        {s : Runtime nx.Graph}
        → (hostname : String → Result (Option String)) (draws : Draws) (req : PolicyRequest)
          (recording : Bool)
        → Call s (evaluate host nx hostname draws req recording s).1
    executed :
        {s : Runtime nx.Graph}
        → (hostname : String → Result (Option String)) (draws : Draws) (m : ExecutionManifest)
        → Call s (execute_capability host nx hostname draws m s).1
    governed :
        {s : Runtime nx.Graph}
        → (signing_key : String) (draws : Draws) (intent : MetasploitIntent) (mode : GovernanceMode)
          (token : Option CapabilityToken) (recording : Bool)
        → Call s (evaluate_metasploit host nx signing_key draws intent mode token recording s).1
    registered :
        {s : Runtime nx.Graph}
        → (c : Capability) (r : CapabilityRecord) → Call s (register_capability host nx c r s).1
    recorded :
        {s : Runtime nx.Graph}
        → (draws : Draws) (d : PolicyDecision) → Call s (record_decision host nx draws d s).1
    switched : {s : Runtime nx.Graph} → (name : String) → Call s (set_environment host nx name s).1

  pub data Calls : Runtime nx.Graph → Runtime nx.Graph → Type 0 where
    idle : {s : Runtime nx.Graph} → Calls s s
    next : {s t u : Runtime nx.Graph} → Call s t → Calls t u → Calls s u
