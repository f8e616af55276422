-- ===== src/Evals/Main.antt =====
-- `ScriptedAgent` and `main` of src/rif-evals/code_refinement_mst/runners/run_session.py, with the agent
-- that was loaded and the task that was read as arguments. The file of the session is not modelled.
use mandare.Prelude.{
  ℕ, ◌+◌, ◌-◌, String, text_append, any, map, ◌≡◌, refl, ◌∙◌, Bool, true, false, eqb, Option, none,
  some, List, [], ◌∷◌, if◌then◌else◌, Result, ok, err, value_error, ok_injective,
}
use mandare.Values.{Host}
use mandare.Graph.{MultiDiGraph}
use mandare.Runtime.State.{Runtime, Action, pure, ◌>>=◌}
use mandare.Runtime.Recording.{bind_returned}
use mandare.Evals.{CodeAgent, Task, TurnSpec, TurnDraws, Event, SessionResult, run_session}
use mandare.Evals.Session.{verified, run_session-IsSound}
use mandare.Evals.Report.{ReportRow, Key, same_key, combined}
use mandare.Evals.Report.Latest.{row_under, last_under, first_of, row_under-combined}

-- `self._states[turn]`, where there is such a state
unfoldable pub state_at : ℕ → List String → Option String
state_at turn [] = none
state_at turn (s ∷ states) =
    let rest = state_at (turn - 1) states in if eqb turn 0 then some s else rest

-- `ScriptedAgent`: its state is the number of its turns.
unfoldable pub scripted_agent : String → List String → Result CodeAgent
unfolding state_at
scripted_agent name [] = err value_error
scripted_agent name (first ∷ states) = ok (record {
  State = ℕ;
  name = name;
  generate_initial = λ prompt entrypoint turn. (first, 0);
  refine = λ code instruction change_type turn.
      (elim (state_at (turn + 1) (first ∷ states)) [ none ↦ code | some s ↦ s ], turn + 1);
})

-- What `main` leaves: the rows of the report, and the status that it returns.
pub record Finished : Type 0 where
  pub report : List ReportRow
  pub status : ℕ

module _ (host : Host) (nx : MultiDiGraph) (hostname : String → Result (Option String))
    (agent : CodeAgent) (task : Task) where
  -- `f"agent:eval:{agent.name}"`
  abbrev pub actor_name : String
  actor_name = text_append "agent:eval:" agent.name

  abbrev pub Session : Type 0
  Session = SessionResult host nx hostname agent actor_name task

  -- `session["result"]`, as a row of the report
  abbrev pub result_row : Session → ReportRow
  result_row r = record {
    task_id = task.task_id;
    model = agent.name;
    turns_attempted = r.score.turns_attempted;
    turns_passed = r.score.turns_passed;
    turns_blocked = some r.turns_blocked;
    first_regression_turn = r.score.first_regression_turn;
    mst_score = r.score.mst_score;
    score_is_meaningful = some r.score_is_meaningful;
  }

  abbrev pub finished : List ReportRow → Session → Finished
  finished existing r = record {
    report = combined existing (result_row r ∷ []);
    status = if r.score_is_meaningful then 0 else 1;
  }

  -- `main`, over the report that is there
  unfoldable pub main :
      List ReportRow → agent.State → List (TurnSpec × TurnDraws) → Action nx.Graph Finished
  main existing start turns =
      run_session host nx hostname agent actor_name task start turns >>= λ r.
      pure (finished existing r)

  first_of_one :
      (b : Bool) (row : ReportRow) (other : Option ReportRow)
      → first_of (if b then some row else none) other ≡ (if b then some row else other)
  first_of_one true row other = refl
  first_of_one false row other = refl

  status_meaningful : (b : Bool) → eqb (if b then 0 else 1) 0 ≡ b
  status_meaningful true = refl
  status_meaningful false = refl

  -- Where `main` returns, the session came to its end; the status is 0 exactly if the tests were run in
  -- some turn of it; the report has the session's row under its task and its agent, whatever it had
  -- there before; and under any other key it has the last row that it had.
  pub main_reports :
      (existing : List ReportRow) (start : agent.State) (turns : List (TurnSpec × TurnDraws))
      (s : Runtime nx.Graph) (out : Finished) (k : Key)
      → (main existing start turns s).0 ≡ ok out
      → (r : Session) × ((run_session host nx hostname agent actor_name task start turns s).0
          ≡ ok r)
        × (eqb out.status 0 ≡ any verified (map (λ (e : Event). e.tests_passed) r.events))
        × (row_under k out.report ≡ (
            if same_key (task.task_id, agent.name) k
            then some (result_row r)
            else last_under k existing))
  unfolding main last_under
  main_reports existing start turns s out k e =
      let (r, ran, made) =
        bind_returned (run_session host nx hostname agent actor_name task start turns)
          (λ r. pure (finished existing r)) s out e in
      let is_out = ok_injective made in
      let sound = run_session-IsSound host nx hostname agent actor_name task start turns s r ran in
      (
        r,
        ran,
        rw (← is_out) (status_meaningful r.score_is_meaningful ∙ sound.meaningful),
        rw (← is_out) (
            row_under-combined existing (result_row r ∷ []) k
            ∙ first_of_one (same_key (task.task_id, agent.name) k) (result_row r)
                (last_under k existing)),
      )
