-- ===== src/Config.antt =====
-- src/rif_runtime/config.py: the settings of a process, from `rif.toml` and the `RIF_*` variables of
-- its environment. The fields of a section that a file gives are validated by pydantic, all of
-- them before anything is raised, so that one bad field and several raise alike.
pub mod Load
pub mod Overrides
pub mod Sections
pub mod Valid
pub mod Start
pub mod Version
use mandare.Prelude.{
  ℕ, String, Bool, true, false, not, ◌==◌, ◌&&◌, Option, none, some, List, [], ◌∷◌, map, Dict,
  lookup, insert, lower, strip, leb, contains, any, if◌then◌else◌, Error, Result, ok, err, ◌>>=◌,
  type_error, config_error,
}
use mandare.Schemas.{Posture, normal, to_posture}
use mandare.Auth.{Environ}

-- The library's integers, over the native numbers.
pub data ℤ : Type 0 where
  pos : ℕ → ℤ
  -- one less than the number, negated
  negsuc : ℕ → ℤ

-- A value of a TOML table; `other` is a float, a date, an array or a table.
pub data Setting : Type 0 where
  flag : Bool → Setting
  integer : ℤ → Setting
  text : String → Setting
  other : Setting

-- A value at the top of a TOML file: a section, or something else.
pub data Entry : Type 0 where
  table : Dict Setting → Entry
  plain : Setting → Entry

abbrev pub Toml : Type 0
Toml = Dict Entry

-- What is taken from outside: `int(text)`, and pydantic's conversions to `int` and `bool` of a value
-- of another type, `none` where it raises.
pub record Casts : Type 0 where
  pub parse_int : String → Option ℤ
  pub as_int : Setting → Option ℤ
  pub as_bool : Setting → Option Bool

pub data ProviderMode : Type 0 where
  local remote hybrid : ProviderMode

pub record RuntimeSection : Type 0 where
  pub posture : Posture
  pub environment : Option String
  pub cloud_egress : Bool

pub record ServerSection : Type 0 where
  pub host : String
  pub port : ℤ
  pub root_path : String

pub record ProviderSection : Type 0 where
  pub mode : ProviderMode
  pub model : String
  pub endpoint : String

pub record PathsSection : Type 0 where
  pub data_dir : String
  pub config_dir : String

pub record RifSettings : Type 0 where
  pub runtime : RuntimeSection
  pub server : ServerSection
  pub provider : ProviderSection
  pub paths : PathsSection

-- `safe_summary`, with the settings for the dict that has their values
abbrev pub safe_summary : RifSettings → RifSettings
safe_summary s =
    if s.provider.endpoint == ""
    then s
    else record s { provider = record (s.provider) { endpoint = "***" } }

-- Validation of one field: the value that the section gives, or the default.
unfoldable pub field_of {ℓ} :
    {A : Type ℓ} → String → A → (Setting → Option A) → Dict Setting → Result A
field_of key default convert section = elim (lookup key section) [
  | none ↦ ok default
  | some v ↦ elim (convert v) [ none ↦ err config_error | some a ↦ ok a ]
]

-- a `str` field
abbrev pub as_text : Setting → Option String
as_text (text s) = some s
as_text _ = none

-- The validators of `host`, `data_dir` and `config_dir`: blank text is the default.
unfoldable pub blank_uses_default : String → Setting → Option String
blank_uses_default default (text s) = if strip s == "" then some default else some (strip s)
blank_uses_default default _ = none

-- `_blank_environment_is_unset`
unfoldable pub blank_environment_is_unset : Setting → Option (Option String)
blank_environment_is_unset (text s) = if strip s == "" then some none else some (some (strip s))
blank_environment_is_unset _ = none

-- `_port_range`
abbrev pub in_port_range : ℤ → Bool
in_port_range (pos n) = leb 1 n && leb n 65535
in_port_range (negsuc n) = false

unfoldable pub port_range : Option ℤ → Option ℤ
port_range none = none
port_range (some v) = if in_port_range v then some v else none

abbrev pub as_posture : Setting → Option Posture
as_posture (text s) = to_posture s
as_posture _ = none

abbrev pub to_provider_mode : String → Option ProviderMode
to_provider_mode s =
    if s == "local"
    then some local
    else if s == "remote"
    then some remote
    else if s == "hybrid"
    then some hybrid
    else none

abbrev pub as_provider_mode : Setting → Option ProviderMode
as_provider_mode (text s) = to_provider_mode s
as_provider_mode _ = none

-- `extra="forbid"`
unfoldable pub forbid_extra : {V : Type 0} → List String → Dict V → Result (Unit {0})
forbid_extra known d = if any (λ kv. not (contains known kv.0)) d then err config_error else ok tt

-- The section of a file: absent it is empty, and so takes its defaults.
unfoldable pub section_of : String → Toml → Result (Dict Setting)
section_of name data_ = elim (lookup name data_) [
  | none ↦ ok []
  | some (table section) ↦ ok section
  | some (plain v) ↦ err config_error
]

module _ (casts : Casts) where
  unfoldable pub runtime_section : Dict Setting → Result RuntimeSection
  unfolding field_of forbid_extra
  runtime_section section = do
    posture ← field_of "posture" normal as_posture section
    environment ← field_of "environment" none blank_environment_is_unset section
    cloud_egress ← field_of "cloud_egress" false casts.as_bool section
    _ ← forbid_extra ("posture" ∷ "environment" ∷ "cloud_egress" ∷ []) section
    ok (record { posture = posture; environment = environment; cloud_egress = cloud_egress })

  unfoldable pub server_section : Dict Setting → Result ServerSection
  unfolding field_of forbid_extra
  server_section section = do
    host ← field_of "host" "127.0.0.1" (blank_uses_default "127.0.0.1") section
    port ← field_of "port" (pos 8000) (λ v. port_range (casts.as_int v)) section
    root_path ← field_of "root_path" "" as_text section
    _ ← forbid_extra ("host" ∷ "port" ∷ "root_path" ∷ []) section
    ok (record { host = host; port = port; root_path = root_path })

  unfoldable pub provider_section : Dict Setting → Result ProviderSection
  unfolding field_of forbid_extra
  provider_section section = do
    mode ← field_of "mode" local as_provider_mode section
    model ← field_of "model" "default" as_text section
    endpoint ← field_of "endpoint" "" as_text section
    _ ← forbid_extra ("mode" ∷ "model" ∷ "endpoint" ∷ []) section
    ok (record { mode = mode; model = model; endpoint = endpoint })

  unfoldable pub paths_section : Dict Setting → Result PathsSection
  unfolding field_of forbid_extra
  paths_section section = do
    data_dir ← field_of "data_dir" "data" (blank_uses_default "data") section
    config_dir ← field_of "config_dir" "config" (blank_uses_default "config") section
    _ ← forbid_extra ("data_dir" ∷ "config_dir" ∷ []) section
    ok (record { data_dir = data_dir; config_dir = config_dir })

  -- `RifSettings.model_validate`
  unfoldable pub model_validate : Toml → Result RifSettings
  unfolding runtime_section server_section provider_section paths_section section_of forbid_extra
  model_validate data_ = do
    runtime ← section_of "runtime" data_ >>= runtime_section
    server ← section_of "server" data_ >>= server_section
    provider ← section_of "provider" data_ >>= provider_section
    paths ← section_of "paths" data_ >>= paths_section
    _ ← forbid_extra ("runtime" ∷ "server" ∷ "provider" ∷ "paths" ∷ []) data_
    ok (record { runtime = runtime; server = server; provider = provider; paths = paths })
