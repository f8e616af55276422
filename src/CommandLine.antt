-- ===== src/CommandLine.antt =====
-- src/rif_runtime/cli.py: what each command computes. What typer parses is an argument of a command,
-- and what it prints is its result.
pub mod Logged
use mandare.Prelude.{
  ℕ, String, Bool, true, false, ◌==◌, Option, none, some, List, if◌then◌else◌, Result, ok, err,
  value_error,
}
use mandare.Values.{Host, end}
use mandare.Schemas.{PolicyRequest, PolicyDecision}
use mandare.Graph.{MultiDiGraph}
use mandare.Storage.{Line}
use mandare.Config.{ℤ, Casts, RifSettings}
use mandare.Config.Start.{RuntimeConfig, DataDirectory}
use mandare.Mcp.Intent.{
  GovernanceMode, read_only_firewall, shadow, lab_broker, MetasploitIntent, GovernanceOutcome,
}
use mandare.Runtime.State.{Runtime, Draws}
use mandare.Runtime.{evaluate}
use mandare.Runtime.Governed.{evaluate_metasploit}
use mandare.Runtime.Summaries.{RecoveredState, recover}
use mandare.Startup.{Boot, Surroundings, pure, lift, ◌>>=◌, get_settings, new_runtime}

-- The arguments of `uvicorn.run`.
pub record Served : Type 0 where
  pub app : String
  pub host : String
  pub port : ℤ
  pub reload : Bool

-- `given if given is not None else configured`
abbrev pub given_or : {A : Type 0} → A → Option A → A
given_or configured given = elim given [ none ↦ configured | some v ↦ v ]

-- `GovernanceMode(mode)`
unfoldable pub to_governance_mode : String → Result GovernanceMode
to_governance_mode mode =
    if mode == "read_only_firewall"
    then ok read_only_firewall
    else if mode == "shadow"
    then ok shadow
    else if mode == "lab_broker"
    then ok lab_broker
    else err value_error

abbrev pub check_request : String → String → String → PolicyRequest
check_request actor action target = record {
  actor = actor;
  action = action;
  target = target;
  reason = none;
}

abbrev pub check_intent : String → String → String → String → MetasploitIntent
check_intent capability target actor scope_id = record {
  actor = actor;
  tool = "msfmcpd";
  capability = capability;
  target = target;
  scope_id = scope_id;
  words = none;
  params = end;
  untrusted_context = none;
}

module _ (casts : Casts) (host : Host) (nx : MultiDiGraph)
    (environments : String → Option (Result RuntimeConfig)) (directories : String → DataDirectory)
    (around : Surroundings) where
  -- `serve`
  unfoldable pub serve : Option String → Option ℤ → Bool → Boot Served
  serve bind port reload = get_settings casts around >>= λ s. pure (record {
    app = "rif_runtime.api:app";
    host = given_or s.server.host bind;
    port = given_or s.server.port port;
    reload = reload;
  })

  -- What the call on the runtime of a command comes to, and the runtime, with its files, afterwards.
  abbrev pub Called : Type 0 → Type 0
  Called A = Result A × Runtime nx.Graph

  -- `check`
  unfoldable pub check :
      (String → Result (Option String))
      → Draws
      → String
      → String
      → String
      → Boot (Called PolicyDecision)
  check hostname draws actor action target =
      new_runtime casts nx environments directories around none >>= λ r.
      pure (evaluate host nx hostname draws (check_request actor action target) true r)

  -- `replay`: an empty path stands for the decisions of the configured data directory.
  unfoldable pub replay : (String → List Line) → ℕ → String → Boot RecoveredState
  replay file_at now decisions_path =
      if decisions_path == ""
      then (get_settings casts around >>= λ s.
          lift (recover host nx now (directories s.paths.data_dir).decisions))
      else lift (recover host nx now (file_at decisions_path))

  -- The body of `msf_check`, over its runtime: `GovernanceMode(mode)` raises before anything is done.
  unfoldable pub governed_check :
      String
      → Draws
      → MetasploitIntent
      → Result GovernanceMode
      → Runtime nx.Graph
      → Called GovernanceOutcome
  governed_check signing_key draws intent (ok mode) r =
      evaluate_metasploit host nx signing_key draws intent mode none true r
  governed_check signing_key draws intent (err e) r = (err e, r)

  -- `msf_check`
  unfoldable pub msf_check :
      String → Draws → String → String → String → String → String → Boot (Called GovernanceOutcome)
  unfolding governed_check to_governance_mode
  msf_check signing_key draws capability target mode actor scope_id =
      new_runtime casts nx environments directories around none >>= λ r. pure (
        governed_check signing_key draws (check_intent capability target actor scope_id)
          (to_governance_mode mode) r)
