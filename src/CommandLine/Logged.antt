-- ===== src/CommandLine/Logged.antt =====
-- What the commands of src/rif_runtime/cli.py leave in the files of the data directory.
use mandare.Prelude.{
  ◌≤◌, String, ◌≡◌, sym, ap, ◌∙◌, true, Option, none, List, Result, ok, ok_injective, >>=-eq-ok,
  ◌>>=◌,
}
use mandare.Values.{Host}
use mandare.Schemas.{PolicyRequest, PolicyDecision}
use mandare.Graph.{MultiDiGraph}
use mandare.Governance.Posture.{posture_severity}
use mandare.Storage.{Line}
use mandare.Storage.Chain.{append_chained}
use mandare.Config.{Casts, RifSettings}
use mandare.Config.Start.{
  RuntimeConfig, DataDirectory, load_config, configured_environment, start, started,
  chosen_directory,
}
use mandare.Config.Start.Floor.{start_floor}
use mandare.Runtime.State.{Runtime, Draws}
use mandare.Runtime.{model_dump, decide, evaluate, record_decision}
use mandare.Runtime.Restore.{restore_posture}
use mandare.Runtime.DryRun.{decide-Reads}
use mandare.Runtime.Recording.{
  bind_returned, bind_after, record_decision_logged, record_decision_returned,
}
use mandare.Runtime.Execution.{IsAnswer, evaluate-IsAnswer}
use mandare.Startup.{pure, lift, new_runtime, Process, Surroundings, get_settings, runtime_from}
use mandare.Startup.Settled.{boot_returned}
use mandare.CommandLine.{check, check_request}

-- A runtime starts with the decisions of the chosen directory.
start_decisions :
    (nx : MultiDiGraph) (settings : RifSettings) (file : Option (Result RuntimeConfig))
    (data_dir : Option String) (directories : String → DataDirectory) (rt : Runtime nx.Graph)
    → start nx settings file data_dir directories ≡ ok rt
    → rt.decisions ≡ (directories (chosen_directory settings data_dir)).decisions
unfolding start
start_decisions nx settings file data_dir directories rt e =
    let dir = directories (chosen_directory settings data_dir) in
    let posture_of = restore_posture settings.runtime.posture dir.posture_history dir.decisions in
    let (c, e1, r1) =
      >>=-eq-ok (load_config settings file)
        (λ c. configured_environment settings c >>= λ name.
          posture_of >>= λ p. ok (started nx c name dir p))
        e in
    let (name, e2, r2) =
      >>=-eq-ok (configured_environment settings c)
        (λ name. posture_of >>= λ p. ok (started nx c name dir p)) r1 in
    let (p, e3, r3) = >>=-eq-ok posture_of (λ p. ok (started nx c name dir p)) r2 in
    sym (ap (λ (t : Runtime nx.Graph). t.decisions) (ok_injective r3))

module _ (host : Host) (nx : MultiDiGraph) (hostname : String → Result (Option String))
    (draws : Draws) where
  -- A recorded answer is one append to the log of decisions.
  evaluate_logged :
      (req : PolicyRequest) (s : Runtime nx.Graph) (d : PolicyDecision)
      → (evaluate host nx hostname draws req true s).0 ≡ ok d
      → append_chained host draws.event_id draws.written_at (model_dump d) s.decisions
        ≡ ok (evaluate host nx hostname draws req true s).1.decisions
  unfolding evaluate
  evaluate_logged req s d e =
      let (d', decided, rest) =
        bind_returned (decide host nx hostname draws req) (λ d. record_decision host nx draws d) s d
          e in
      let t = (decide host nx hostname draws req s).1 in
      let same = record_decision_returned host nx draws d' t d rest in
      let app = λ (x : PolicyDecision) (lines : List Line).
        append_chained host draws.event_id draws.written_at (model_dump x) lines in
      let after =
        bind_after (decide host nx hostname draws req) (λ d. record_decision host nx draws d) s d'
          decided in
      ap (λ x. app x s.decisions) (sym same)
      ∙ ap (λ (r : Runtime nx.Graph). app d' r.decisions)
          (sym (decide-Reads host nx hostname draws req s))
      ∙ record_decision_logged host nx draws d' t d rest
      ∙ ap (λ (r : Result PolicyDecision × Runtime nx.Graph). ok (r.1.decisions)) (sym after)

  module _ (casts : Casts) (environments : String → Option (Result RuntimeConfig))
      (directories : String → DataDirectory) (around : Surroundings) where
    -- If `rif check` prints a decision, it is the engine's answer in the runtime that the settings give,
    -- whose posture is not less restrictive than the configured one; and the log of decisions in the
    -- configured data directory has got one append, of that decision.
    pub check_logged :
        (actor action target : String) (p p' : Process) (d : PolicyDecision) (t : Runtime nx.Graph)
        → check casts host nx environments directories around hostname draws actor action target p
          ≡ (ok (ok d, t), p')
        → (s : RifSettings) × (r : Runtime nx.Graph) × (get_settings casts around p ≡ (ok s, p'))
          × (runtime_from casts nx environments directories none s ≡ ok r)
          × (posture_severity s.runtime.posture ≤ posture_severity r.posture)
          × IsAnswer host nx hostname draws (check_request actor action target) r d
          × (append_chained host draws.event_id draws.written_at
                (model_dump d)
                (directories s.paths.data_dir).decisions
              ≡ ok t.decisions)
    unfolding check new_runtime runtime_from
    check_logged actor action target p p' d t e =
        let req = check_request actor action target in
        let (r, p'', made, ran) =
          boot_returned (new_runtime casts nx environments directories around none)
            (λ r. pure (evaluate host nx hostname draws req true r)) p p' (ok d, t) e in
        let (s, q, loads, starts) =
          boot_returned (get_settings casts around)
            (λ s. lift (runtime_from casts nx environments directories none s)) p p'' r made in
        let started = ap (λ x. x.0) starts in
        let same = ap (λ x. x.1) starts ∙ ap (λ x. x.1) ran in
        let called = ok_injective (ap (λ x. x.0) ran) in
        let returned = ap (λ x. x.0) called in
        let file = environments s.paths.config_dir in
        (
          s,
          r,
          loads ∙ ap (λ x. (ok s, x)) same,
          started,
          start_floor nx s file none directories r started,
          evaluate-IsAnswer host nx hostname draws req true r d returned,
          ap (λ lines. append_chained host draws.event_id draws.written_at (model_dump d) lines)
                (sym (start_decisions nx s file none directories r started))
              ∙ evaluate_logged req r d returned
              ∙ ap (λ (x : Result PolicyDecision × Runtime nx.Graph). ok (x.1.decisions)) called,
        )
