-- ===== src/Config/Start/Floor.antt =====
-- What the configuration guarantees of a runtime that starts, in src/rif_runtime/config.py and
-- src/rif_runtime/runtime.py.
use mathlib.Core.Path.{subst}
use mandare.Prelude.{
  ◌≤◌, String, ◌≡◌, refl, sym, ◌∙◌, ap, inl, inr, Bool, true, false, Bool-cases, Option, none, some,
  Option-cases, [], ◌∷◌, lookup, eq_refl, has_key, Result, ok, ok_injective, >>=-eq-ok, ◌>>=◌,
  arith,
}
use mandare.Schemas.{
  Posture, locked, is_locked, is_allow, to_posture, PolicyRequest, PolicyDecision, allow_of,
}
use mandare.Values.{Host}
use mandare.Graph.{MultiDiGraph}
use mandare.Auth.{Environ}
use mandare.Governance.Posture.{posture_severity, at_least_posture}
use mandare.Governance.Posture.Ratchet.{at_least_posture_bounds}
use mandare.Config.{Toml, Casts, RifSettings, text, field_of}
use mandare.Config.Load.{load_settings, coerce_env_value}
use mandare.Config.Overrides.{overlaid, env_overrides_win}
use mandare.Config.Sections.{load_settings-Loaded, runtime_section-posture, value_at-section_of}
use mandare.Config.Valid.{IsFilled, IsNamed, load_settings-IsValid}
use mandare.Config.Start.{
  RuntimeConfig, default_profile, or_production, load_config, configured_environment, DataDirectory,
  start, started, chosen_directory,
}
use mandare.Runtime.State.{Runtime, Draws}
use mandare.Runtime.{evaluate}
use mandare.Runtime.Restore.{restore_posture, restored_posture}
use mandare.Runtime.Calls.{Calls}
use mandare.Runtime.Ratchet.{Calls-keep_guard}
use mandare.Runtime.Execution.{evaluate-IsAnswer, IsAnswer-IsAuthorised}

-- Without an `environments.yaml`, the environment that is configured is one that `load_config` knows.
configured_environment_named :
    (settings : RifSettings)
    → IsNamed settings.runtime.environment
    → (c : RuntimeConfig) × (load_config settings none ≡ ok c)
      × (name : String) × (configured_environment settings c ≡ ok name)
      × (lookup name c.environments ≡ some default_profile)
unfolding load_config configured_environment lookup
configured_environment_named settings named =
    let name = or_production settings.runtime.environment in
    let c : RuntimeConfig = record {
      default_environment = name;
      environments = (name, default_profile) ∷ [];
    } in
    let configured : configured_environment settings c ≡ ok name =
      elim (Option-cases settings.runtime.environment) [
        | inl unset ↦
            rw (configured_environment, unset) (ap (λ asked. ok (or_production asked)) unset)
        | inr (asked, given) ↦
            let filled : IsFilled asked = rw given at named in
            let same : name ≡ asked = rw (given, filled) refl in
            let known : has_key asked c.environments ≡ true =
              rw (same, has_key, eq_refl asked) refl in
            rw (configured_environment, given, known, filled) refl
      ] in
    (c, refl, name, configured, rw (eq_refl name) refl)

-- A runtime starts in the configured posture or in a more restrictive one.
pub start_floor :
    (nx : MultiDiGraph) (settings : RifSettings) (file : Option (Result RuntimeConfig))
    (data_dir : Option String) (directories : String → DataDirectory) (rt : Runtime nx.Graph)
    → start nx settings file data_dir directories ≡ ok rt
    → posture_severity settings.runtime.posture ≤ posture_severity rt.posture
unfolding start restore_posture
start_floor nx settings file data_dir directories rt e =
    let dir = directories (chosen_directory settings data_dir) in
    let floor = settings.runtime.posture in
    let restored = restored_posture dir.posture_history dir.decisions in
    let made = λ (c : RuntimeConfig) (name : String) (p : Posture). started nx c name dir p in
    let raised = λ (p : Posture). ok (at_least_posture p floor) in
    let posture_of = restore_posture floor dir.posture_history dir.decisions in
    let named = λ (c : RuntimeConfig).
      configured_environment settings c >>= λ name. posture_of >>= λ p. ok (made c name p) in
    let (c, e1, r1) = >>=-eq-ok (load_config settings file) named e in
    let (name, e2, r2) =
      >>=-eq-ok (configured_environment settings c) (λ name. posture_of >>= λ p. ok (made c name p))
        r1 in
    let (p, e3, r3) = >>=-eq-ok posture_of (λ p. ok (made c name p)) r2 in
    let (q, e4, r4) = >>=-eq-ok restored raised e3 in
    let same : at_least_posture q floor ≡ rt.posture =
      ok_injective r4 ∙ ap (λ (t : Runtime nx.Graph). t.posture) (ok_injective r3) in
    subst (λ p. posture_severity floor ≤ posture_severity p) same
      ((at_least_posture_bounds q floor).1)

-- The severity of a lock is that of nothing else.
locked_of : (p : Posture) → posture_severity locked ≤ posture_severity p → is_locked p ≡ true
unfolding posture_severity
locked_of p h = ground arith

module _ (casts : Casts) (file : Option (Result Toml)) (env : Environ)
    (settings : RifSettings) where
  -- Where settings load and there is no `environments.yaml`, `load_config` returns, the configured
  -- environment is one that it knows, and the profile under that name is the restrictive default.
  pub start_without_environments :
      load_settings casts file env ≡ ok settings
      → (c : RuntimeConfig) × (load_config settings none ≡ ok c)
        × (name : String) × (configured_environment settings c ≡ ok name)
        × (lookup name c.environments ≡ some default_profile)
  start_without_environments e =
      configured_environment_named settings
        (load_settings-IsValid casts file env settings e).environment

  -- A posture that the environment gives is the one that is configured.
  configured_posture :
      load_settings casts file env ≡ ok settings
      → lookup "RIF_POSTURE" env ≡ some "locked"
      → settings.runtime.posture ≡ locked
  unfolding field_of coerce_env_value to_posture
  configured_posture e given =
      let l = load_settings-Loaded casts file env settings e in
      let (section, at_section, made) = l.sections.runtime in
      let wins = env_overrides_win casts env l.from_file l.overlaid "runtime" "posture" l.applied in
      let stands = value_at-section_of casts "runtime" "posture" l.overlaid section at_section in
      let posture = runtime_section-posture casts section settings.runtime made in
      let set : ok (some (text "locked")) ≡ ok (lookup "posture" section) =
        (rw (overlaid, given) at wins) ∙ ap ok stands in
      sym (ok_injective (rw (field_of, sym (ok_injective set)) at posture))

  -- Where the environment sets `RIF_POSTURE=locked`, `evaluate` allows nothing in the runtime that
  -- starts: neither its files, nor any sequence of calls of `evaluate`, `record_decision`,
  -- `execute_capability`, `evaluate_metasploit`, `register_capability` and `set_environment` before,
  -- unlock it.
  pub locked_start_allows_nothing :
      (host : Host) (nx : MultiDiGraph) (environments_file : Option (Result RuntimeConfig))
      (data_dir : Option String) (directories : String → DataDirectory) (rt t : Runtime nx.Graph)
      (hostname : String → Result (Option String)) (draws : Draws) (req : PolicyRequest)
      (recording : Bool) (d : PolicyDecision)
      → load_settings casts file env ≡ ok settings
      → lookup "RIF_POSTURE" env ≡ some "locked"
      → start nx settings environments_file data_dir directories ≡ ok rt
      → Calls host nx rt t
      → (evaluate host nx hostname draws req recording t).0 ≡ ok d
      → is_allow d.decision ≡ false
  locked_start_allows_nothing host nx environments_file data_dir directories rt t hostname draws req
        recording d loads given starts calls decided =
      let configured =
        subst (λ p. posture_severity p ≤ posture_severity rt.posture)
          (configured_posture loads given)
          (start_floor nx settings environments_file data_dir directories rt starts) in
      let kept = Calls-keep_guard host nx rt t calls in
      let shut = locked_of t.posture (omega (arith, configured, kept)) in
      let answer = evaluate-IsAnswer host nx hostname draws req recording t d decided in
      elim (Bool-cases (is_allow d.decision)) [
        | inr no_it_is_not ↦ no_it_is_not
        | inl yes_it_is ↦
            let allowed =
              IsAnswer-IsAuthorised host nx hostname draws req t d answer
                (allow_of d.decision yes_it_is) in
            cc (allowed.unlocked, shut)
      ]
