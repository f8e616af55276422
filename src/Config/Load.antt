-- ===== src/Config/Load.antt =====
-- `load_settings` of src/rif_runtime/config.py: the variables of the environment over the file.
use mandare.Prelude.{
  String, ◌==◌, Option, none, some, List, [], ◌∷◌, lookup, insert, lower, strip, contains,
  if◌then◌else◌, Result, ok, err, ◌>>=◌, type_error, config_error,
}
use mandare.Auth.{Environ}
use mandare.Config.{
  Setting, flag, integer, text, table, plain, Toml, Casts, RifSettings, model_validate,
}

abbrev pub truthy : List String
truthy = "1" ∷ "true" ∷ "yes" ∷ []

-- `data.setdefault(section, {})[key] = value`
unfoldable pub set_in : String → String → Setting → Toml → Result Toml
set_in section key v data_ = elim (lookup section data_) [
  | none ↦ ok (insert section (table ((key, v) ∷ [])) data_)
  | some (table fields) ↦ ok (insert section (table (insert key v fields)) data_)
  | some (plain w) ↦ err type_error
]

-- An entry of `_ENV_MAP`.
pub record Mapping : Type 0 where
  pub env_key : String
  pub section : String
  pub key : String

abbrev pub mapping : String → String → String → Mapping
mapping env_key section key = record { env_key = env_key; section = section; key = key }

abbrev pub env_map : List Mapping
env_map =
    mapping "RIF_POSTURE" "runtime" "posture"
    ∷ mapping "RIF_ENVIRONMENT" "runtime" "environment"
    ∷ mapping "RIF_CLOUD_EGRESS" "runtime" "cloud_egress"
    ∷ mapping "RIF_SERVER_HOST" "server" "host"
    ∷ mapping "RIF_SERVER_PORT" "server" "port"
    ∷ mapping "RIF_SERVER_ROOT_PATH" "server" "root_path"
    ∷ mapping "RIF_PROVIDER_MODE" "provider" "mode"
    ∷ mapping "RIF_PROVIDER_MODEL" "provider" "model"
    ∷ mapping "RIF_PROVIDER_ENDPOINT" "provider" "endpoint"
    ∷ mapping "RIF_DATA_DIR" "paths" "data_dir"
    ∷ mapping "RIF_CONFIG_DIR" "paths" "config_dir"
    ∷ []

module _ (casts : Casts) where
  -- `_coerce_env_value`
  unfoldable pub coerce_env_value : String → String → String → Result Setting
  coerce_env_value raw section key =
      if key == "cloud_egress"
      then ok (flag (contains truthy (lower raw)))
      else if key == "port"
      then elim (casts.parse_int (strip raw)) [ none ↦ err config_error | some n ↦ ok (integer n) ]
      else ok (text raw)

  unfoldable pub apply_override : Environ → Mapping → Toml → Result Toml
  unfolding coerce_env_value set_in
  apply_override env m data_ = elim (lookup m.env_key env) [
    | none ↦ ok data_
    | some raw ↦ coerce_env_value raw m.section m.key >>= λ v. set_in m.section m.key v data_
  ]

  -- The loop of `_apply_env_overrides`.
  unfoldable pub apply_overrides : Environ → List Mapping → Toml → Result Toml
  unfolding apply_override
  apply_overrides env [] data_ = ok data_
  apply_overrides env (m ∷ ms) data_ =
      apply_override env m data_ >>= λ data_'. apply_overrides env ms data_'

  -- `load_settings`: the file, when there is one, with the exception that `tomllib.load` may raise.
  unfoldable pub load_settings : Option (Result Toml) → Environ → Result RifSettings
  unfolding apply_overrides model_validate
  load_settings file env = do
    data_ ← elim file [ none ↦ ok [] | some parsed ↦ parsed ]
    data_' ← apply_overrides env env_map data_
    model_validate casts data_'
