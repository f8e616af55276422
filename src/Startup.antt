-- ===== src/Startup.antt =====
-- How a process comes up: the cached settings of src/rif_runtime/config.py, src/rif_runtime/startup.py,
-- and what importing src/rif_runtime/api.py does. Each call that may read `rif.toml` and the
-- environment takes what it would find there at that moment.
pub mod Settled
use mandare.Prelude.{
  String, Bool, true, false, Option, none, some, List, [], ◌∷◌, ◌++◌, if◌then◌else◌, Error,
  value_error, config_error, Result, ok, err,
}
use mandare.Graph.{MultiDiGraph}
use mandare.Auth.{Environ}
use mandare.Config.{Toml, Casts, RifSettings, safe_summary}
use mandare.Config.Load.{load_settings}
use mandare.Config.Start.{RuntimeConfig, DataDirectory, start}
use mandare.Runtime.State.{Runtime}

-- What the loggers of startup.py are given.
pub data LogEntry : Type 0 where
  configuration_invalid runtime_invalid : LogEntry
  configuration_loaded : RifSettings → LogEntry

-- The module's `_settings`, and the log.
pub record Process : Type 0 where
  pub settings : Option RifSettings
  pub log : List LogEntry

abbrev pub fresh : Process
fresh = record { settings = none; log = [] }

abbrev pub Boot : Type 0 → Type 0
Boot A = Process → Result A × Process

abbrev pub pure : {A : Type 0} → A → Boot A
pure a p = (ok a, p)

abbrev pub lift : {A : Type 0} → Result A → Boot A
lift r p = (r, p)

infixl 5 ◌>>=◌ ◌>>◌
abbrev pub ◌>>=◌ : {A B : Type 0} → Boot A → (A → Boot B) → Boot B
◌>>=◌ m f p = let (r, p') = m p in elim r [ ok a ↦ f a p' | err e ↦ (err e, p') ]

abbrev pub ◌>>◌ : {A B : Type 0} → Boot A → Boot B → Boot B
m >> k = m >>= λ _. k

abbrev pub log_entry : LogEntry → Process → Process
log_entry entry p = record p { log = p.log ++ entry ∷ [] }

-- `except E: logger.critical(...); raise`, for what a call came to
unfoldable pub diagnose :
    {A : Type 0} → (Error → Bool) → LogEntry → Result A × Process → Result A × Process
diagnose caught entry (ok a, p) = (ok a, p)
diagnose caught entry (err e, p) = (err e, if caught e then log_entry entry p else p)

abbrev pub is_config_error : Error → Bool
is_config_error config_error = true
is_config_error _ = false

abbrev pub is_value_error : Error → Bool
is_value_error value_error = true
is_value_error _ = false

-- What a load of the settings finds: the file, where there is one, and the environment.
pub record Surroundings : Type 0 where
  pub file : Option (Result Toml)
  pub env : Environ

-- `_settings = load_settings()`, for what the load came to
unfoldable pub kept : Process → Result RifSettings → Result RifSettings × Process
kept p (ok s) = (ok s, record p { settings = some s })
kept p (err e) = (err e, p)

-- `reset_settings`
abbrev pub reset_settings : Process → Process
reset_settings p = record p { settings = none }

-- `with configuration_diagnostics():`
unfoldable pub configuration_diagnostics : {A : Type 0} → Boot A → Boot A
unfolding diagnose
configuration_diagnostics m p = diagnose is_value_error runtime_invalid (m p)

-- `app`, with the settings that the lifespan puts on `app.state`
pub record App (G : Type 0) : Type 0 where
  pub runtime : Runtime G
  pub root_path : String
  pub settings : Option RifSettings

module _ (casts : Casts) where
  abbrev pub loaded_from : Surroundings → Result RifSettings
  loaded_from around = load_settings casts around.file around.env

  -- `get_settings`
  unfoldable pub get_settings : Surroundings → Boot RifSettings
  unfolding kept
  get_settings around p = elim p.settings [
    | some s ↦ (ok s, p)
    | none ↦ kept p (loaded_from around)
  ]

  -- `validate_config`
  unfoldable pub validate_config : Surroundings → Boot RifSettings
  unfolding get_settings diagnose
  validate_config around p = diagnose is_config_error configuration_invalid (get_settings around p)

  module _ (nx : MultiDiGraph) (environments : String → Option (Result RuntimeConfig))
      (directories : String → DataDirectory) where
    unfoldable pub runtime_from : Option String → RifSettings → Result (Runtime nx.Graph)
    runtime_from data_dir s = start nx s (environments s.paths.config_dir) data_dir directories

    -- `RIFRuntime(data_dir)`: `environments.yaml` is looked for in the configured directory.
    unfoldable pub new_runtime : Surroundings → Option String → Boot (Runtime nx.Graph)
    unfolding get_settings
    new_runtime around data_dir = get_settings around >>= λ s. lift (runtime_from data_dir s)

    -- The import of api.py, whose settings may be loaded at three moments.
    unfoldable pub import_api : Surroundings → Surroundings → Surroundings → Boot (App nx.Graph)
    unfolding validate_config configuration_diagnostics new_runtime
    import_api first second third = do
      validate_config first
      runtime ← configuration_diagnostics (new_runtime second none)
      settings ← validate_config third
      pure (record { runtime = runtime; root_path = settings.server.root_path; settings = none })

    -- `config_lifespan`, up to its `yield`
    unfoldable pub config_lifespan : Surroundings → App nx.Graph → Boot (App nx.Graph)
    unfolding validate_config
    config_lifespan around app = do
      settings ← validate_config around
      (λ p. (ok tt, log_entry (configuration_loaded (safe_summary settings)) p))
      pure (record app { settings = some settings })
