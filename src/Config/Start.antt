-- ===== src/Config/Start.antt =====
-- How a runtime starts: `load_config` of src/rif_runtime/config.py, and `RIFRuntime.__init__` and
-- `_configured_environment` of src/rif_runtime/runtime.py. A file is absent or given as what reading it
-- and validating its content comes to.
pub mod Floor
use mandare.Prelude.{
  String, ◌==◌, Option, none, some, List, [], ◌∷◌, Dict, has_key, if◌then◌else◌, Result, ok, err,
  ◌>>=◌, value_error, false,
}
use mandare.Schemas.{EnvironmentProfile, Posture}
use mandare.Graph.{MultiDiGraph}
use mandare.Governance.Telemetry.{new_telemetry}
use mandare.PolicyStore.{PolicyRow, default_policies, ensure_required}
use mandare.Storage.{Line}
use mandare.Capabilities.{new_registry}
use mandare.Config.{RifSettings}
use mandare.Runtime.State.{Runtime}
use mandare.Runtime.Restore.{restore_posture}

pub record RuntimeConfig : Type 0 where
  pub default_environment : String
  pub environments : Dict EnvironmentProfile

-- `EnvironmentProfile()`
abbrev pub default_profile : EnvironmentProfile
default_profile = record {
  networking_type = "limited";
  allow_mcp_server_network_access = false;
  allow_package_manager_network_access = false;
  allowed_hosts = [];
}

-- `name or "production"`
abbrev pub or_production : Option String → String
or_production none = "production"
or_production (some name) = if name == "" then "production" else name

-- `load_config`, with `environments.yaml` where there is one
unfoldable pub load_config : RifSettings → Option (Result RuntimeConfig) → Result RuntimeConfig
load_config settings (some config) = config
load_config settings none =
    let name = or_production settings.runtime.environment in
    ok (record { default_environment = name; environments = (name, default_profile) ∷ [] })

-- `_configured_environment`
unfoldable pub configured_environment : RifSettings → RuntimeConfig → Result String
configured_environment settings config = elim settings.runtime.environment [
  | none ↦ ok config.default_environment
  | some configured ↦
      if has_key configured config.environments then ok configured else err value_error
]

-- The files of a data directory, of which only `policies.json` is seeded when it is absent.
pub record DataDirectory : Type 0 where
  pub policies : Option (List PolicyRow)
  pub decisions : List Line
  pub posture_history : List Line
  pub evidence : List Line
  pub capability_evidence : List Line

-- `PolicyStore.__init__`
abbrev pub open_policies : Option (List PolicyRow) → List PolicyRow
open_policies none = ensure_required default_policies
open_policies (some rows) = ensure_required rows

-- `data_dir if data_dir is not None else get_settings().paths.data_dir`
abbrev pub chosen_directory : RifSettings → Option String → String
chosen_directory settings data_dir = elim data_dir [ none ↦ settings.paths.data_dir | some d ↦ d ]

module _ (nx : MultiDiGraph) where
  -- The runtime that `__init__` leaves, over the files of a directory.
  abbrev pub started : RuntimeConfig → String → DataDirectory → Posture → Runtime nx.Graph
  started config name dir posture = record {
    environment_name = name;
    environments = config.environments;
    policy_rows = open_policies dir.policies;
    graph = nx.empty;
    telemetry = new_telemetry;
    posture = posture;
    decisions = dir.decisions;
    posture_history = dir.posture_history;
    evidence = dir.evidence;
    capability_evidence = dir.capability_evidence;
    registry = new_registry;
  }

  -- `RIFRuntime.__init__`
  unfoldable pub start :
      RifSettings
      → Option (Result RuntimeConfig)
      → Option String
      → (String → DataDirectory)
      → Result (Runtime nx.Graph)
  unfolding load_config configured_environment
  start settings environments_file data_dir directories = do
    config ← load_config settings environments_file
    name ← configured_environment settings config
    let dir = directories (chosen_directory settings data_dir)
    posture ← restore_posture settings.runtime.posture dir.posture_history dir.decisions
    ok (started config name dir posture)
