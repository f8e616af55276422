-- ===== src/Evals.antt =====
-- src/rif-evals/code_refinement_mst/runners/run_session.py and score.py: a session in which an agent
-- refines code over turns that the runtime gates, and its score. A task carries its fields typed.
-- The agent and the sandbox are parameters; the sandbox may answer as it likes in each turn.
pub mod Score
pub mod Regression
pub mod Session
pub mod Report
pub mod Main
pub mod Sandbox
pub mod SessionFile
use mandare.Prelude.{
  ℕ, suc, ◌+◌, ◌-◌, String, Bool, true, false, not, ◌&&◌, Option, none, some, List, [], ◌∷◌, ◌++◌,
  map, length, count, ltb, if◌then◌else◌, text_append, Result, ok, err,
}
use mandare.Evals.Score.{SessionScore, is_failure, is_blocked, score_session}
use mandare.Schemas.{Decision, deny, is_deny, Posture, PolicyRequest, PolicyDecision}
use mandare.Values.{Value, text, Host}
use mandare.Values.Normal.{sha256_digest}
use mandare.Config.{ℤ}
use mandare.Graph.{MultiDiGraph}
use mandare.Runtime.State.{Runtime, Draws, Action, pure, lift, gets, ◌>>=◌}
use mandare.Runtime.{record_decision, evaluate}

pub record TurnSpec : Type 0 where
  pub turn : String
  pub instruction : String
  pub change_type : String

pub record Task : Type 0 where
  pub task_id : String
  pub prompt : String
  pub entrypoint : String
  pub refinement_turns : List TurnSpec

pub record SandboxResult : Type 0 where
  pub passed : Bool
  pub exit_code : ℤ
  pub stdout : String
  pub stderr : String
  pub timed_out : Bool

-- `CodeAgent`, with the state that its methods change
pub record CodeAgent : Type 1 where
  pub State : Type 0
  pub name : String
  pub generate_initial : String → String → State → String × State
  pub refine : String → String → String → State → String × State

-- What a turn draws: for its gate, for the record of a failure, the time of that record, and what the
-- sandbox answers of the code.
pub record TurnDraws : Type 0 where
  pub gate : Draws
  pub failure : Draws
  pub stamp : ℕ
  pub run_in_sandbox : String → SandboxResult

pub data VerificationStatus : Type 0 where
  blocked passed failed error : VerificationStatus

pub record Event : Type 0 where
  pub task_id : String
  pub turn : String
  pub change_type : String
  pub state_hash_before : String
  pub state_hash_after : String
  pub tests_passed : Option Bool
  pub policy_decision : Decision
  pub verification_status : VerificationStatus
  pub regression_detected : Bool

module _ (host : Host) (nx : MultiDiGraph) (hostname : String → Result (Option String))
    (agent : CodeAgent) (actor : String) (task : Task) where
  -- The variables of the loop.
  pub record Progress : Type 0 where
    pub code : String
    pub agent_state : agent.State
    pub events : List Event
    pub still_correct : Bool

  -- What a turn came to, before it is entered in the events.
  pub record Outcome : Type 0 where
    pub code : String
    pub agent_state : agent.State
    pub tests_passed : Option Bool
    pub policy_decision : Decision
    pub verification_status : VerificationStatus

  abbrev pub gate_request : TurnSpec → PolicyRequest
  gate_request spec = record {
    actor = actor;
    action = "code.refine";
    target = text_append "task:" task.task_id;
    reason = some spec.instruction;
  }

  -- The denial that a failed verification is recorded as.
  abbrev pub failure_decision : TurnSpec → ℕ → Runtime nx.Graph → PolicyDecision
  failure_decision spec stamp s = record {
    decision = deny;
    actor = actor;
    action = "code.verify";
    target = text_append "task:" task.task_id;
    environment = s.environment_name;
    posture = s.posture;
    reason = text_append "test suite failed after turn " spec.turn;
    matched_rule = "verification.regression_detected";
    timestamp = stamp;
  }

  abbrev pub blocked_outcome : Progress → Decision → Outcome
  blocked_outcome p d = record {
    code = p.code;
    agent_state = p.agent_state;
    tests_passed = none;
    policy_decision = d;
    verification_status = blocked;
  }

  abbrev pub tested_outcome : String → agent.State → Bool → Decision → VerificationStatus → Outcome
  tested_outcome code agent_state tests_passed d status = record {
    code = code;
    agent_state = agent_state;
    tests_passed = some tests_passed;
    policy_decision = d;
    verification_status = status;
  }

  -- The branch in which the agent refines the code.
  unfoldable pub refined : TurnSpec → TurnDraws → Progress → Decision → Action nx.Graph Outcome
  refined spec draws p d =
      let (code, agent_state) =
        agent.refine p.code spec.instruction spec.change_type p.agent_state in
      let sandbox_result = draws.run_in_sandbox code in
      if sandbox_result.passed then pure (tested_outcome code agent_state true d passed) else (do
        s ← gets (λ t. t)
        v ← record_decision host nx draws.failure (failure_decision spec draws.stamp s)
        pure (
            tested_outcome code agent_state false v.decision
              (if sandbox_result.timed_out then error else failed)))

  -- What follows the decision of the gate.
  unfoldable pub after_gate : TurnSpec → TurnDraws → Progress → Decision → Action nx.Graph Outcome
  unfolding refined
  after_gate spec draws p d =
      if is_deny d then pure (blocked_outcome p d) else refined spec draws p d

  -- The event of a turn, with the digests of the code before and after it.
  abbrev pub event_of : TurnSpec → Progress → Outcome → String → String → Event
  event_of spec p o before after = record {
    task_id = task.task_id;
    turn = spec.turn;
    change_type = spec.change_type;
    state_hash_before = before;
    state_hash_after = after;
    tests_passed = o.tests_passed;
    policy_decision = o.policy_decision;
    verification_status = o.verification_status;
    regression_detected = p.still_correct && is_failure o.tests_passed;
  }

  abbrev pub advance : TurnSpec → Progress → Outcome → String → String → Progress
  advance spec p o before after = record {
    code = o.code;
    agent_state = o.agent_state;
    events = p.events ++ event_of spec p o before after ∷ [];
    still_correct = p.still_correct && not (is_failure o.tests_passed);
  }

  -- One turn of the loop. A digest of text does not raise, so that it does not matter that the second
  -- is taken last, nor that it is taken again where the code is as it was.
  unfoldable pub run_turn : TurnSpec → TurnDraws → Progress → Action nx.Graph Progress
  unfolding after_gate
  run_turn spec draws p = do
    gate_decision ← evaluate host nx hostname draws.gate (gate_request spec) true
    before ← lift (sha256_digest host (text p.code))
    o ← after_gate spec draws p gate_decision.decision
    after ← lift (sha256_digest host (text o.code))
    pure (advance spec p o before after)

  unfoldable pub run_turns : List (TurnSpec × TurnDraws) → Progress → Action nx.Graph Progress
  unfolding run_turn
  run_turns [] p = pure p
  run_turns ((spec, draws) ∷ turns) p = run_turn spec draws p >>= λ q. run_turns turns q

  pub record SessionResult : Type 0 where
    pub score : SessionScore
    pub turns_blocked : ℕ
    pub score_is_meaningful : Bool
    pub events : List Event
    pub posture_start : Posture
    pub posture_end : Posture

  abbrev pub results_of : List Event → List (Option Bool)
  results_of events = map (λ (e : Event). e.tests_passed) events

  unfoldable pub session_result : Posture → Posture → List Event → SessionResult
  unfolding score_session
  session_result posture_start posture_end events =
      let score = score_session task.task_id (results_of events) in
      let turns_blocked = count is_blocked (results_of events) in
      record {
        score = score;
        turns_blocked = turns_blocked;
        score_is_meaningful = ltb turns_blocked score.turns_attempted;
        events = events;
        posture_start = posture_start;
        posture_end = posture_end;
      }

  abbrev pub first_progress : agent.State → Progress
  first_progress start =
      let (code, agent_state) = agent.generate_initial task.prompt task.entrypoint start in
      record { code = code; agent_state = agent_state; events = []; still_correct = true }

  -- `run_session`: the turns of the task, each with what it draws.
  unfoldable pub run_session :
      agent.State → List (TurnSpec × TurnDraws) → Action nx.Graph SessionResult
  unfolding run_turns session_result
  run_session start turns = do
    posture_start ← gets (λ s. s.posture)
    p ← run_turns turns (first_progress start)
    posture_end ← gets (λ s. s.posture)
    pure (session_result posture_start posture_end p.events)
