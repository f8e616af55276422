-- ===== src/Evals/Session.antt =====
-- What a session of src/rif-evals/code_refinement_mst/runners/run_session.py verifies, and where it
-- leaves the runtime.
use mathlib.Core.Path.{subst}
use mandare.Prelude.{
  ◌⊎◌, ℕ, ◌+◌, ◌≤◌, String, ◌≡◌, refl, sym, ◌∙◌, inl, inr, Bool, true, false, not, Option, none,
  some, List, [], ◌∷◌, map, length, count, eqb, ◌||◌, Bool-cases, any, arith, ltb, if◌then◌else◌,
  Result, ok,
}
use mandare.Schemas.{Decision, Posture, is_deny, PolicyDecision}
use mandare.Values.{text, Host}
use mandare.Values.Normal.{sha256_digest}
use mandare.Graph.{MultiDiGraph}
use mandare.Governance.Posture.{posture_severity}
use mandare.Runtime.State.{Runtime, pure, lift, gets, ◌>>=◌}
use mandare.Runtime.{record_decision, evaluate}
use mandare.Runtime.Ratchet.{
  KeepsGuard, KeepsGuard-bind, KeepsGuard-lift, KeepsGuard-if, record_decision-KeepsGuard,
  evaluate-KeepsGuard,
}
use mandare.Evals.Score.{is_failure, is_blocked, first_at, score_session}
use mandare.Evals.{
  TurnSpec, TurnDraws, Task, CodeAgent, error, failed, passed, Event, Progress, Outcome,
  gate_request, failure_decision, blocked_outcome, tested_outcome, refined, after_gate, advance,
  run_turn, run_turns, SessionResult, session_result, first_progress, run_session,
}
use mandare.Evals.Regression.{flagged, run_session_returned, run_session_regression}

abbrev pub verified : Option Bool → Bool
verified o = not (is_blocked o)

blocked_or_verified :
    (os : List (Option Bool))
    → (count is_blocked os ≤ length os) × (ltb (count is_blocked os) (length os) ≡ any verified os)
blocked_or_verified [] = (omega arith, refl)
blocked_or_verified (none ∷ os) =
    let (most, same) = blocked_or_verified os in (omega (arith, most), ground (arith, same))
blocked_or_verified (some b ∷ os) =
    let (most, same) = blocked_or_verified os in (omega (arith, most), ground (arith, most))

-- Without a verified turn there is no failure.
unverified :
    (start : ℕ) (os : List (Option Bool))
    → any verified os ≡ false
    → first_at is_failure start os ≡ none
unfolding first_at
unverified start [] h = refl
unverified start (none ∷ os) h = ground (arith, unverified (start + 1) os h)
unverified start (some b ∷ os) h = cc

unverified_score :
    (task_id : String) (os : List (Option Bool))
    → any verified os ≡ false
    → (score_session task_id os).mst_score ≡ (score_session task_id os).turns_attempted
unfolding score_session
unverified_score task_id os h = rw (score_session, unverified 1 os h) refl

or_eqb : (m : Bool) (a b : ℕ) → (m ≡ true) ⊎ (a ≡ b) → (m || eqb a b) ≡ true
or_eqb m a b (inl yes_it_is) = ground (arith, yes_it_is)
or_eqb m a b (inr same) = ground (arith, same)

module _ (host : Host) (nx : MultiDiGraph) (hostname : String → Result (Option String))
    (agent : CodeAgent) (actor : String) (task : Task) where
  refined-KeepsGuard :
      (spec : TurnSpec) (draws : TurnDraws) (p : Progress host nx hostname agent actor task)
      (d : Decision)
      → KeepsGuard (refined host nx hostname agent actor task spec draws p d)
  unfolding refined
  refined-KeepsGuard spec draws p d =
      let next = agent.refine p.code spec.instruction spec.change_type p.agent_state in
      let answer = draws.run_in_sandbox next.0 in
      let result = tested_outcome host nx hostname agent actor task next.0 next.1 in
      let status = if answer.timed_out then error else failed in
      let recorded = λ (s : Runtime nx.Graph).
        record_decision host nx draws.failure
          (failure_decision host nx hostname agent actor task spec draws.stamp s) in
      let made = λ (v : PolicyDecision). pure {G = nx.Graph} (result false v.decision status) in
      KeepsGuard-if answer.passed (pure (result true d passed))
        (gets (λ t. t) >>= λ s. recorded s >>= made) (λ s. omega arith)
        (KeepsGuard-bind (gets (λ t. t)) (λ s. recorded s >>= made) (λ s. omega arith)
          (λ s.
            KeepsGuard-bind (recorded s) made (record_decision-KeepsGuard host nx draws.failure _)
              (λ v t. omega arith)))

  after_gate-KeepsGuard :
      (spec : TurnSpec) (draws : TurnDraws) (p : Progress host nx hostname agent actor task)
      (d : Decision)
      → KeepsGuard (after_gate host nx hostname agent actor task spec draws p d)
  unfolding after_gate
  after_gate-KeepsGuard spec draws p d =
      KeepsGuard-if (is_deny d) (pure (blocked_outcome host nx hostname agent actor task p d))
        (refined host nx hostname agent actor task spec draws p d) (λ s. omega arith)
        (refined-KeepsGuard spec draws p d)

  run_turn-KeepsGuard :
      (spec : TurnSpec) (draws : TurnDraws) (p : Progress host nx hostname agent actor task)
      → KeepsGuard (run_turn host nx hostname agent actor task spec draws p)
  unfolding run_turn
  run_turn-KeepsGuard spec draws p =
      let final = λ (o : Outcome host nx hostname agent actor task) (before after : String).
        pure {G = nx.Graph} (advance host nx hostname agent actor task spec p o before after) in
      let rest = λ (o : Outcome host nx hostname agent actor task) (before : String).
        lift {G = nx.Graph} (sha256_digest host (text o.code)) >>= final o before in
      let gated = λ (d : PolicyDecision) (before : String).
        after_gate host nx hostname agent actor task spec draws p d.decision >>= λ o.
        rest o before in
      let hashed = λ (d : PolicyDecision).
        lift {G = nx.Graph} (sha256_digest host (text p.code)) >>= gated d in
      let gate =
        evaluate host nx hostname draws.gate (gate_request host nx hostname agent actor task spec)
          true in
      KeepsGuard-bind gate hashed
        (evaluate-KeepsGuard host nx hostname draws.gate
          (gate_request host nx hostname agent actor task spec) true)
        (λ d.
          KeepsGuard-bind (lift (sha256_digest host (text p.code))) (gated d)
            (KeepsGuard-lift (sha256_digest host (text p.code)))
            (λ before.
              KeepsGuard-bind (after_gate host nx hostname agent actor task spec draws p d.decision)
                (λ o. rest o before) (after_gate-KeepsGuard spec draws p d.decision)
                (λ o.
                  KeepsGuard-bind (lift (sha256_digest host (text o.code))) (final o before)
                    (KeepsGuard-lift (sha256_digest host (text o.code))) (λ after s. omega arith))))

  run_turns-KeepsGuard :
      (turns : List (TurnSpec × TurnDraws)) (p : Progress host nx hostname agent actor task)
      → KeepsGuard (run_turns host nx hostname agent actor task turns p)
  unfolding run_turns
  run_turns-KeepsGuard [] p s = omega arith
  run_turns-KeepsGuard ((spec, draws) ∷ turns) p s =
      KeepsGuard-bind (run_turn host nx hostname agent actor task spec draws p)
        (λ q. run_turns host nx hostname agent actor task turns q)
        (run_turn-KeepsGuard spec draws p) (λ q. run_turns-KeepsGuard turns q) s

  -- What is promised of the result of a session.
  pub record IsSound (r : SessionResult host nx hostname agent actor task) : Type 0 where
    pub single : count flagged r.events ≤ 1
    pub first : first_at flagged 1 r.events ≡ r.score.first_regression_turn
    pub meaningful :
        r.score_is_meaningful ≡ any verified (map (λ (e : Event). e.tests_passed) r.events)
    pub highest : (r.score_is_meaningful || eqb r.score.mst_score r.score.turns_attempted) ≡ true
    pub guard : posture_severity r.posture_start ≤ posture_severity r.posture_end

  session_result-meaningful :
      (before after : Posture) (events : List Event)
      → (session_result host nx hostname agent actor task before after events).score_is_meaningful
        ≡ any verified (map (λ (e : Event). e.tests_passed) events)
  unfolding session_result score_session
  session_result-meaningful before after events =
      (blocked_or_verified (map (λ (e : Event). e.tests_passed) events)).1

  session_result-highest :
      (before after : Posture) (events : List Event)
      → ((session_result host nx hostname agent actor task before after events).score_is_meaningful
          || eqb
              (session_result host nx hostname agent actor task before after events).score.mst_score
              (session_result host nx hostname agent actor task before after
                events).score.turns_attempted)
        ≡ true
  unfolding session_result
  session_result-highest before after events =
      let results = map (λ (e : Event). e.tests_passed) events in
      let same = session_result-meaningful before after events in
      let score = score_session task.task_id results in
      or_eqb _ score.mst_score score.turns_attempted (elim (Bool-cases (any verified results)) [
        | inl some_were ↦ inl (same ∙ some_were)
        | inr none_were ↦ inr (unverified_score task.task_id results none_were)
      ])

  -- In a session that comes to its end, the events flag at most one regression, and the first that
  -- they flag, if any, is the first regression that the score reports; the score is meaningful exactly
  -- if the tests were run in some turn, and where they were not, the score is nevertheless the
  -- highest, the number of the turns; and the posture is not less restrictive than it was.
  pub run_session-IsSound :
      (start : agent.State) (turns : List (TurnSpec × TurnDraws)) (s : Runtime nx.Graph)
      (r : SessionResult host nx hostname agent actor task)
      → (run_session host nx hostname agent actor task start turns s).0 ≡ ok r
      → IsSound r
  unfolding session_result
  run_session-IsSound start turns s r e =
      let (q, ran, made) =
        run_session_returned host nx hostname agent actor task start turns s r e in
      let opened = first_progress host nx hostname agent actor task start in
      let after = (run_turns host nx hostname agent actor task turns opened s).1 in
      let (single, first) =
        run_session_regression host nx hostname agent actor task start turns s r e in
      subst IsSound made (record {
        single =
            subst
              (λ (x : SessionResult host nx hostname agent actor task). count flagged x.events ≤ 1)
              (sym made) single;
        first =
            subst
              (λ (x : SessionResult host nx hostname agent actor task).
                first_at flagged 1 x.events ≡ x.score.first_regression_turn)
              (sym made) first;
        meaningful = session_result-meaningful s.posture after.posture q.events;
        highest = session_result-highest s.posture after.posture q.events;
        guard = run_turns-KeepsGuard turns opened s;
      })
