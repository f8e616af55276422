-- ===== src/Config/Sections.antt =====
-- What the settings of src/rif_runtime/config.py were made of.
use mathlib.Core.Path.{subst}
use mandare.Prelude.{
  String, ◌≡◌, ap, ◌∙◌, Bool, false, Option, none, some, [], ◌∷◌, Dict, lookup, Result, ok,
  ok_injective, >>=-eq-ok, ◌>>=◌, Option-cases, inl, inr,
}
use mandare.Schemas.{Posture, normal}
use mandare.Auth.{Environ}
use mandare.Config.{
  Setting, table, plain, Toml, Casts, field_of, RuntimeSection, ServerSection, ProviderSection,
  PathsSection, RifSettings, forbid_extra, section_of, runtime_section, server_section,
  provider_section, paths_section, model_validate, as_posture, blank_environment_is_unset,
}
use mandare.Config.Load.{env_map, apply_overrides, load_settings}
use mandare.Config.Overrides.{value_at}

module _ (casts : Casts) where
  -- The sections that a validated dict was made of.
  pub record Sections (data_ : Toml) (s : RifSettings) : Type 0 where
    pub runtime :
        (d : Dict Setting) × (section_of "runtime" data_ ≡ ok d)
        × (runtime_section casts d ≡ ok s.runtime)
    pub server :
        (d : Dict Setting) × (section_of "server" data_ ≡ ok d)
        × (server_section casts d ≡ ok s.server)
    pub paths :
        (d : Dict Setting) × (section_of "paths" data_ ≡ ok d)
        × (paths_section casts d ≡ ok s.paths)

  model_validate-Sections :
      (data_ : Toml) (s : RifSettings) → model_validate casts data_ ≡ ok s → Sections data_ s
  unfolding model_validate
  model_validate-Sections data_ s e =
      let known = "runtime" ∷ "server" ∷ "provider" ∷ "paths" ∷ [] in
      let runtime_of = section_of "runtime" data_ >>= runtime_section casts in
      let server_of = section_of "server" data_ >>= server_section casts in
      let provider_of = section_of "provider" data_ >>= provider_section casts in
      let paths_of = section_of "paths" data_ >>= paths_section casts in
      let made =
        λ (a : RuntimeSection) (b : ServerSection) (c : ProviderSection) (d : PathsSection).
          ok (record { runtime = a; server = b; provider = c; paths = d }) in
      let last =
        λ (a : RuntimeSection) (b : ServerSection) (c : ProviderSection) (d : PathsSection).
          forbid_extra known data_ >>= λ u. made a b c d in
      let paths_next =
        λ (a : RuntimeSection) (b : ServerSection) (c : ProviderSection). paths_of >>= last a b c in
      let provider_next =
        λ (a : RuntimeSection) (b : ServerSection). provider_of >>= paths_next a b in
      let (a, e1, r1) = >>=-eq-ok runtime_of (λ a. server_of >>= provider_next a) e in
      let (b, e2, r2) = >>=-eq-ok server_of (provider_next a) r1 in
      let (c, e3, r3) = >>=-eq-ok provider_of (paths_next a b) r2 in
      let (d, e4, r4) = >>=-eq-ok paths_of (last a b c) r3 in
      let (u, e5, r5) = >>=-eq-ok (forbid_extra known data_) (λ u. made a b c d) r4 in
      subst (Sections data_) (ok_injective r5) (record {
        runtime = >>=-eq-ok (section_of "runtime" data_) (runtime_section casts) e1;
        server = >>=-eq-ok (section_of "server" data_) (server_section casts) e2;
        paths = >>=-eq-ok (section_of "paths" data_) (paths_section casts) e4;
      })

  -- The settings come from the file, with the variables over it.
  pub record Loaded (file : Option (Result Toml)) (env : Environ) (s : RifSettings) : Type 0 where
    pub from_file : Toml
    pub overlaid : Toml
    pub applied : apply_overrides casts env env_map from_file ≡ ok overlaid
    pub sections : Sections overlaid s

  pub load_settings-Loaded :
      (file : Option (Result Toml)) (env : Environ) (s : RifSettings)
      → load_settings casts file env ≡ ok s
      → Loaded file env s
  unfolding load_settings
  load_settings-Loaded file env s e =
      let read : Result Toml = elim file [ none ↦ ok [] | some parsed ↦ parsed ] in
      let (data_, e1, r1) =
        >>=-eq-ok read (λ d. apply_overrides casts env env_map d >>= model_validate casts) e in
      let (data_', e2, r2) =
        >>=-eq-ok (apply_overrides casts env env_map data_) (model_validate casts) r1 in
      record {
        from_file = data_;
        overlaid = data_';
        applied = e2;
        sections = model_validate-Sections data_' s r2;
      }

  -- The posture is that of the section.
  pub runtime_section-posture :
      (section : Dict Setting) (s : RuntimeSection)
      → runtime_section casts section ≡ ok s
      → field_of "posture" normal as_posture section ≡ ok s.posture
  unfolding runtime_section
  runtime_section-posture section s e =
      let fields = "posture" ∷ "environment" ∷ "cloud_egress" ∷ [] in
      let last = λ (p : Posture) (environment : Option String) (c : Bool).
        forbid_extra fields section >>= λ u.
        ok (record { posture = p; environment = environment; cloud_egress = c }) in
      let egress = λ (p : Posture) (environment : Option String).
        field_of "cloud_egress" false casts.as_bool section >>= last p environment in
      let named = field_of "environment" none blank_environment_is_unset section in
      let (p, e1, r1) =
        >>=-eq-ok (field_of "posture" normal as_posture section) (λ p. named >>= egress p) e in
      let (environment, e2, r2) = >>=-eq-ok named (egress p) r1 in
      let (c, e3, r3) =
        >>=-eq-ok (field_of "cloud_egress" false casts.as_bool section) (last p environment) r2 in
      let (u, e4, r4) =
        >>=-eq-ok (forbid_extra fields section)
          (λ u. ok (record { posture = p; environment = environment; cloud_egress = c })) r3 in
      e1 ∙ ap (λ (x : RuntimeSection). ok x.posture) (ok_injective r4)

  -- A value of a section, where the section is a table.
  pub value_at-section_of :
      (name key : String) (data_ : Toml) (section : Dict Setting)
      → section_of name data_ ≡ ok section
      → value_at name key data_ ≡ lookup key section
  unfolding section_of lookup
  value_at-section_of name key data_ section e = elim (Option-cases (lookup name data_)) [
    | inl missing ↦
        rw (value_at, missing) (ap (lookup key) (ok_injective (rw (section_of, missing) at e)))
    | inr (table fields, found) ↦
        rw (value_at, found) (ap (lookup key) (ok_injective (rw (section_of, found) at e)))
    | inr (plain v, found) ↦ cc (rw (section_of, found) at e)
  ]
