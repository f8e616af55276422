-- ===== src/Startup/Settled.antt =====
-- What the settings of a process are after src/rif_runtime/startup.py has seen them.
use mandare.Prelude.{
  String, ◌≡◌, refl, inl, inr, Bool-cases, Option, none, some, List, [], ◌∷◌, if◌then◌else◌, Result,
  ok, err, Result-cases, ok_injective, ap, sym, ◌∙◌,
}
use mandare.Graph.{MultiDiGraph}
use mandare.Config.{Casts, RifSettings, safe_summary}
use mandare.Config.Start.{RuntimeConfig, DataDirectory}
use mandare.Runtime.State.{Runtime}
use mandare.Startup.{
  diagnose, kept, pure, ◌>>=◌, LogEntry, Process, fresh, Boot, Surroundings, App, loaded_from,
  get_settings, validate_config, runtime_from, new_runtime, import_api, config_lifespan,
  configuration_diagnostics, is_config_error, is_value_error, configuration_invalid,
  runtime_invalid, configuration_loaded,
}

-- What a sequence returned was returned by its second part, after the first.
pub boot_returned :
    {A B : Type 0}
    → (m : Boot A) (f : A → Boot B) (p p' : Process) (b : B) → (m >>= f) p ≡ (ok b, p')
    → (a : A) × (p'' : Process) × (m p ≡ (ok a, p'')) × (f a p'' ≡ (ok b, p'))
boot_returned m f p p' b e = elim (Result-cases ((m p).0)) [
  | inl (a, r) ↦ (a, (m p).1, ap (λ x. (x, (m p).1)) r, rw (r, ◌>>=◌) at e)
  | inr (x, r) ↦ cc (ap (λ q. q.0) (rw (r, ◌>>=◌) at e))
]

abbrev pub logged : Option RifSettings → List LogEntry → Process
logged settings log = record { settings = settings; log = log }

module _ (casts : Casts) (nx : MultiDiGraph) (environments : String → Option (Result RuntimeConfig))
    (directories : String → DataDirectory) where
  abbrev pub app_of : Runtime nx.Graph → RifSettings → App nx.Graph
  app_of runtime s = record { runtime = runtime; root_path = s.server.root_path; settings = none }

  -- What becomes of a process whose settings loaded, by what the start of the runtime came to.
  unfoldable pub started_with :
      RifSettings → Result (Runtime nx.Graph) → Result (App nx.Graph) × Process
  started_with s (ok runtime) = (ok (app_of runtime s), logged (some s) [])
  started_with s (err e) =
      (err e, logged (some s) (if is_value_error e then runtime_invalid ∷ [] else []))

  -- What becomes of a process whose settings load, or do not.
  unfoldable pub imported : Result RifSettings → Result (App nx.Graph) × Process
  unfolding started_with
  imported (ok s) = started_with s (runtime_from casts nx environments directories none s)
  imported (err e) =
      (err e, logged none (if is_config_error e then configuration_invalid ∷ [] else []))

  from_start :
      (third : Surroundings) (s : RifSettings) (started : Result (Runtime nx.Graph))
      → ((λ p. diagnose is_value_error runtime_invalid (started, p)) >>= λ runtime.
            validate_config casts third >>= λ s'. pure (app_of runtime s'))
          (logged (some s) [])
        ≡ started_with s started
  unfolding diagnose validate_config get_settings started_with
  from_start third s (ok runtime) = refl
  from_start third s (err e) = elim (Bool-cases (is_value_error e)) [
    | inl value ↦ rw value refl
    | inr other ↦ rw other refl
  ]

  from_load :
      (second third : Surroundings) (loads : Result RifSettings)
      → ((λ p. diagnose is_config_error configuration_invalid (kept p loads)) >>= λ s.
            configuration_diagnostics (new_runtime casts nx environments directories second none)
            >>= λ runtime. validate_config casts third >>= λ s'. pure (app_of runtime s'))
          fresh
        ≡ imported loads
  unfolding diagnose kept configuration_diagnostics new_runtime get_settings imported
  from_load second third (ok s) =
      from_start third s (runtime_from casts nx environments directories none s)
  from_load second third (err e) = elim (Bool-cases (is_config_error e)) [
    | inl config ↦ rw config refl
    | inr other ↦ rw other refl
  ]

  -- The import of the API reads the file and the environment once, whatever they become during it. If
  -- the settings do not load, nothing is cached, no runtime is started and the exception goes on,
  -- after one diagnostic where it is a `ConfigError`; if they load, the runtime that they give is
  -- started and they are cached; and an exception of that start goes on, after one diagnostic where
  -- it is a `ValueError`.
  pub import_api-eq-imported :
      (first second third : Surroundings)
      → import_api casts nx environments directories first second third fresh
        ≡ imported (loaded_from casts first)
  unfolding import_api validate_config get_settings
  import_api-eq-imported first second third = from_load second third (loaded_from casts first)

  -- A process that has come up serves the settings its runtime was started with, whatever the file
  -- and the environment have become: those that loaded first are on the application, the prefix of
  -- its paths is theirs, and the log has one line, with their summary.
  pub config_lifespan_settled :
      (first second third later : Surroundings) (app : App nx.Graph) (p : Process)
      → import_api casts nx environments directories first second third fresh ≡ (ok app, p)
      → (s : RifSettings) × (loaded_from casts first ≡ ok s)
        × (runtime_from casts nx environments directories none s ≡ ok app.runtime)
        × (app.root_path ≡ s.server.root_path)
        × (config_lifespan casts nx environments directories later app p ≡ (
          ok (record app { settings = some s }),
          logged (some s) (configuration_loaded (safe_summary s) ∷ []),
        ))
  unfolding imported started_with config_lifespan validate_config get_settings
  config_lifespan_settled first second third later app p up =
      let e = sym (import_api-eq-imported first second third) ∙ up in
      elim (Result-cases (loaded_from casts first)) [
        | inr (x, raised) ↦ cc (ap (λ r. r.0) (rw raised at e))
        | inl (s, loads) ↦
            elim (Result-cases (runtime_from casts nx environments directories none s)) [
              | inr (x, raised) ↦ cc (ap (λ r. r.0) (rw (loads, raised) at e))
              | inl (runtime, starts) ↦
                  let same : (ok (app_of runtime s), logged (some s) []) ≡ (ok app, p) =
                    rw (loads, starts) at e in
                  let app_is = ok_injective (ap (λ r. r.0) same) in
                  let p_is = ap (λ r. r.1) same in
                  (s, loads, rw (← app_is) starts, rw (← app_is) refl, rw (← app_is, ← p_is) refl)
            ]
      ]
