-- ===== src/Config/Valid.antt =====
-- What validation promises of the settings of src/rif_runtime/config.py.
use mathlib.Core.Path.{subst}
use mandare.Prelude.{
  some_injective, [], ◌∷◌, ◌>>=◌, ℕ, ◌≤◌, String, ◌≡◌, refl, inl, inr, Bool, true, false, ◌==◌,
  Bool-cases, Option, none, some, Option-cases, lookup, Dict, strip, Result, ok, ok_injective,
  >>=-eq-ok, arith,
}
use mandare.Auth.{Environ}
use mandare.Config.{
  ℤ, pos, negsuc, Setting, flag, integer, text, other, Toml, Casts, field_of, RuntimeSection,
  ServerSection, PathsSection, RifSettings, blank_uses_default, blank_environment_is_unset,
  in_port_range, port_range, runtime_section, server_section, paths_section, forbid_extra,
  as_posture, as_text,
}
use mandare.Config.Load.{load_settings}
use mandare.Config.Sections.{load_settings-Loaded}
use mandare.Schemas.{Posture, normal}

abbrev pub IsFilled : String → Type 0
IsFilled s = (s == "") ≡ false

abbrev pub IsNamed : Option String → Type 0
IsNamed none = Unit
IsNamed (some name) = IsFilled name

pub record IsPort (v : ℤ) : Type 0 where
  pub number : ℕ
  pub is : v ≡ pos number
  pub least : 1 ≤ number
  pub most : number ≤ 65535

pub record IsValid (s : RifSettings) : Type 0 where
  pub port : IsPort s.server.port
  pub host : IsFilled s.server.host
  pub data_dir : IsFilled s.paths.data_dir
  pub config_dir : IsFilled s.paths.config_dir
  pub environment : IsNamed s.runtime.environment

-- What holds of the default and of whatever is converted holds of the field.
field_of-all {ℓ κ} :
    {A : Type ℓ} (P : A → Type κ) (key : String) (default : A) (convert : Setting → Option A)
    (section : Dict Setting)
    → P default
    → ((v : Setting) (a : A) → convert v ≡ some a → P a)
    → (a : A) → field_of key default convert section ≡ ok a
    → P a
unfolding field_of
field_of-all P key default convert section base step a e =
    elim (Option-cases (lookup key section)) [
      | inl missing ↦ subst P (ok_injective (rw (field_of, missing) at e)) base
      | inr (v, found) ↦ elim (Option-cases (convert v)) [
        | inl wrong ↦ cc (rw (field_of, found, wrong) at e)
        | inr (b, right) ↦
            subst P (ok_injective (rw (field_of, found, right) at e)) (step v b right)
      ]
    ]

blank_uses_default-IsFilled :
    (default : String)
    → IsFilled default
    → (v : Setting) (a : String) → blank_uses_default default v ≡ some a
    → IsFilled a
unfolding blank_uses_default
blank_uses_default-IsFilled default h (text s) a e = elim (Bool-cases (strip s == "")) [
  | inl blank ↦ subst IsFilled (some_injective (rw blank at e)) h
  | inr filled ↦ subst IsFilled (some_injective (rw filled at e)) filled
]
blank_uses_default-IsFilled default h (flag b) a e = cc
blank_uses_default-IsFilled default h (integer n) a e = cc
blank_uses_default-IsFilled default h other a e = cc

blank_environment_is_unset-IsNamed :
    (v : Setting) (a : Option String) → blank_environment_is_unset v ≡ some a → IsNamed a
unfolding blank_environment_is_unset
blank_environment_is_unset-IsNamed (text s) a e = elim (Bool-cases (strip s == "")) [
  | inl blank ↦ subst IsNamed (some_injective (rw blank at e)) tt
  | inr filled ↦ subst IsNamed (some_injective (rw filled at e)) filled
]
blank_environment_is_unset-IsNamed (flag b) a e = cc
blank_environment_is_unset-IsNamed (integer n) a e = cc
blank_environment_is_unset-IsNamed other a e = cc

in_port_range-IsPort : (v : ℤ) → in_port_range v ≡ true → IsPort v
in_port_range-IsPort (pos n) h = record {
  number = n;
  is = refl;
  least = ground arith;
  most = ground arith;
}
in_port_range-IsPort (negsuc n) h = cc

port_range-IsPort : (v : Option ℤ) (a : ℤ) → port_range v ≡ some a → IsPort a
unfolding port_range
port_range-IsPort none a e = cc
port_range-IsPort (some v) a e = elim (Bool-cases (in_port_range v)) [
  | inl inside ↦ subst IsPort (some_injective (rw inside at e)) (in_port_range-IsPort v inside)
  | inr outside ↦ cc (rw outside at e)
]

module _ (casts : Casts) where
  runtime_section-IsNamed :
      (section : Dict Setting) (s : RuntimeSection)
      → runtime_section casts section ≡ ok s
      → IsNamed s.environment
  unfolding runtime_section
  runtime_section-IsNamed section s e =
      let fields = "posture" ∷ "environment" ∷ "cloud_egress" ∷ [] in
      let last = λ (p : Posture) (environment : Option String) (c : Bool).
        forbid_extra fields section >>= λ u.
        ok (record { posture = p; environment = environment; cloud_egress = c }) in
      let egress = λ (p : Posture) (environment : Option String).
        field_of "cloud_egress" false casts.as_bool section >>= last p environment in
      let named = field_of "environment" none blank_environment_is_unset section in
      let (p, e1, r1) =
        >>=-eq-ok (field_of "posture" normal as_posture section) (λ p. named >>= egress p) e in
      let (environment, e2, r2) = >>=-eq-ok named (egress p) r1 in
      let (c, e3, r3) =
        >>=-eq-ok (field_of "cloud_egress" false casts.as_bool section) (last p environment) r2 in
      let (u, e4, r4) =
        >>=-eq-ok (forbid_extra fields section)
          (λ u. ok (record { posture = p; environment = environment; cloud_egress = c })) r3 in
      let good =
        field_of-all IsNamed "environment" none blank_environment_is_unset section tt
          blank_environment_is_unset-IsNamed environment e2 in
      subst (λ (x : RuntimeSection). IsNamed x.environment) (ok_injective r4) good

  server_section-IsPort :
      (section : Dict Setting) (s : ServerSection)
      → server_section casts section ≡ ok s
      → IsFilled s.host × IsPort s.port
  unfolding server_section
  server_section-IsPort section s e =
      let fields = "host" ∷ "port" ∷ "root_path" ∷ [] in
      let last = λ (host : String) (port : ℤ) (root : String). forbid_extra fields section >>= λ u.
      ok (record { host = host; port = port; root_path = root }) in
      let root_of = field_of "root_path" "" as_text section in
      let port_of = field_of "port" (pos 8000) (λ v. port_range (casts.as_int v)) section in
      let filled = blank_uses_default "127.0.0.1" in
      let host_of = field_of "host" "127.0.0.1" filled section in
      let (host, e1, r1) =
        >>=-eq-ok host_of (λ host. port_of >>= λ port. root_of >>= last host port) e in
      let (port, e2, r2) = >>=-eq-ok port_of (λ port. root_of >>= last host port) r1 in
      let (root, e3, r3) = >>=-eq-ok root_of (last host port) r2 in
      let (u, e4, r4) =
        >>=-eq-ok (forbid_extra fields section)
          (λ u. ok (record { host = host; port = port; root_path = root })) r3 in
      let good_host =
        field_of-all IsFilled "host" "127.0.0.1" filled section refl
          (blank_uses_default-IsFilled "127.0.0.1" refl) host e1 in
      let good_port =
        field_of-all IsPort "port" (pos 8000) (λ v. port_range (casts.as_int v)) section
          (in_port_range-IsPort (pos 8000) refl) (λ v a h. port_range-IsPort (casts.as_int v) a h)
          port e2 in
      subst (λ (x : ServerSection). IsFilled x.host × IsPort x.port) (ok_injective r4)
        (good_host, good_port)

  paths_section-IsFilled :
      (section : Dict Setting) (s : PathsSection)
      → paths_section casts section ≡ ok s
      → IsFilled s.data_dir × IsFilled s.config_dir
  unfolding paths_section
  paths_section-IsFilled section s e =
      let fields = "data_dir" ∷ "config_dir" ∷ [] in
      let made = λ (d c : String). ok (record { data_dir = d; config_dir = c }) in
      let last = λ (d c : String). forbid_extra fields section >>= λ u. made d c in
      let data_of = field_of "data_dir" "data" (blank_uses_default "data") section in
      let config_of = field_of "config_dir" "config" (blank_uses_default "config") section in
      let (d, e1, r1) = >>=-eq-ok data_of (λ d. config_of >>= last d) e in
      let (c, e2, r2) = >>=-eq-ok config_of (last d) r1 in
      let (u, e3, r3) = >>=-eq-ok (forbid_extra fields section) (λ u. made d c) r2 in
      let good_data =
        field_of-all IsFilled "data_dir" "data" (blank_uses_default "data") section refl
          (blank_uses_default-IsFilled "data" refl) d e1 in
      let good_config =
        field_of-all IsFilled "config_dir" "config" (blank_uses_default "config") section refl
          (blank_uses_default-IsFilled "config" refl) c e2 in
      subst (λ (x : PathsSection). IsFilled x.data_dir × IsFilled x.config_dir) (ok_injective r3)
        (good_data, good_config)

  -- Settings that load have a port from 1 to 65535 and no empty host, data directory, configuration
  -- directory or name of an environment, whatever the file and the variables give.
  pub load_settings-IsValid :
      (file : Option (Result Toml)) (env : Environ) (s : RifSettings)
      → load_settings casts file env ≡ ok s
      → IsValid s
  load_settings-IsValid file env s e =
      let made = (load_settings-Loaded casts file env s e).sections in
      let (d, at_d, runs) = made.runtime in
      let (f, at_f, serves) = made.server in
      let (g, at_g, keeps) = made.paths in
      let (host, port) = server_section-IsPort f s.server serves in
      let (data_dir, config_dir) = paths_section-IsFilled g s.paths keeps in
      record {
        port = port;
        host = host;
        data_dir = data_dir;
        config_dir = config_dir;
        environment = runtime_section-IsNamed d s.runtime runs;
      }
