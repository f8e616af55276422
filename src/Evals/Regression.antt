-- ===== src/Evals/Regression.antt =====
-- Where a session of src/rif-evals/code_refinement_mst/runners/run_session.py regresses, and what
-- score.py makes of it.
use mathlib.Core.Path.{subst}
use mandare.Prelude.{
  ℕ, ◌+◌, ◌≤◌, String, ◌≡◌, refl, sym, ◌∙◌, ap, Bool, true, false, not, ◌&&◌, Option, none, some,
  List, [], ◌∷◌, ◌++◌, map, length, count, count-append, arith, if◌then◌else◌, Result, ok,
  ok_injective,
}
use mandare.Schemas.{PolicyDecision, Posture}
use mandare.Values.{text, Host}
use mandare.Values.Normal.{sha256_digest}
use mandare.Graph.{MultiDiGraph}
use mandare.Runtime.State.{Runtime, Action, pure, lift, gets, ◌>>=◌}
use mandare.Runtime.{evaluate}
use mandare.Runtime.Recording.{bind_returned}
use mandare.Evals.Score.{is_failure, first_at, score_session}
use mandare.Evals.{
  TurnSpec, TurnDraws, Task, CodeAgent, Event, Progress, Outcome, gate_request, after_gate,
  event_of, advance, run_turn, run_turns, SessionResult, session_result, first_progress,
  run_session,
}

-- The first place in a list to which one element is added at the end.
abbrev or_at : Option ℕ → Bool → ℕ → Option ℕ
or_at (some i) b k = some i
or_at none b k = if b then some k else none

first_at-concat :
    {A : Type 0} (p : A → Bool) (start : ℕ) (xs : List A) (x : A)
    → first_at p start (xs ++ x ∷ []) ≡ or_at (first_at p start xs) (p x) (start + length xs)
unfolding first_at
first_at-concat p start [] x = ground arith
first_at-concat p start (y ∷ xs) x = ground (arith, first_at-concat p (start + 1) xs x)

-- The failures are counted by the results.
first_at-map :
    {A B : Type 0} (f : A → B) (p : B → Bool) (start : ℕ) (xs : List A)
    → first_at p start (map f xs) ≡ first_at (λ x. p (f x)) start xs
unfolding first_at
first_at-map f p start [] = refl
first_at-map f p start (x ∷ xs) = ground (arith, first_at-map f p (start + 1) xs)

abbrev fails : Event → Bool
fails e = is_failure e.tests_passed

abbrev pub flagged : Event → Bool
flagged e = e.regression_detected

abbrev is_clear : Option ℕ → Bool
is_clear none = true
is_clear (some i) = false

-- What the loop keeps: the flag of `still_correct` says whether a turn has failed, and the events flag
-- the first turn that did, and no other.
pub record IsHonest (still_correct : Bool) (events : List Event) : Type 0 where
  pub clear : still_correct ≡ is_clear (first_at fails 1 events)
  pub first : first_at flagged 1 events ≡ first_at fails 1 events
  pub single : count flagged events + (if still_correct then 1 else 0) ≡ 1

is_clear-or_at : (o : Option ℕ) (b : Bool) (k : ℕ) → (is_clear o && not b) ≡ is_clear (or_at o b k)
is_clear-or_at none b k = ground arith
is_clear-or_at (some i) b k = refl

or_at-is_clear : (o : Option ℕ) (b : Bool) (k : ℕ) → or_at o (is_clear o && b) k ≡ or_at o b k
or_at-is_clear none b k = refl
or_at-is_clear (some i) b k = refl

one_of :
    (c f g : Bool) (n : ℕ)
    → n + (if c then 1 else 0) ≡ 1
    → g ≡ (c && f)
    → n + ((if g then 1 else 0) + 0) + (if c && not f then 1 else 0) ≡ 1
one_of c f g n h e = ground arith

IsHonest-concat :
    (still_correct : Bool) (events : List Event) (e : Event)
    → IsHonest still_correct events
    → e.regression_detected ≡ (still_correct && fails e)
    → IsHonest (still_correct && not (fails e)) (events ++ e ∷ [])
IsHonest-concat still_correct events e h flag =
    let k = 1 + length events in
    let o = first_at fails 1 events in
    let flag' : flagged e ≡ (is_clear o && fails e) = flag ∙ ap (λ c. c && fails e) h.clear in
    record {
      clear =
          ap (λ c. c && not (fails e)) h.clear
          ∙ is_clear-or_at o (fails e) k
          ∙ ap is_clear (sym (first_at-concat fails 1 events e));
      first =
          first_at-concat flagged 1 events e
          ∙ ap (λ x. or_at x (flagged e) k) h.first
          ∙ ap (λ b. or_at o b k) flag'
          ∙ or_at-is_clear o (fails e) k
          ∙ sym (first_at-concat fails 1 events e);
      single =
          ap (λ n. n + (if still_correct && not (fails e) then 1 else 0))
            (count-append flagged events (e ∷ []))
          ∙ one_of still_correct (fails e) (flagged e) (count flagged events) h.single flag;
    }

-- The score of a list of results, and the events that it is read from.
first_regression :
    (task_id : String) (events : List Event)
    → (score_session task_id (map (λ (e : Event). e.tests_passed) events)).first_regression_turn
      ≡ first_at fails 1 events
unfolding score_session
first_regression task_id events = first_at-map (λ (e : Event). e.tests_passed) is_failure 1 events

module _ (host : Host) (nx : MultiDiGraph) (hostname : String → Result (Option String))
    (agent : CodeAgent) (actor : String) (task : Task) where
  abbrev Loop : Type 0
  Loop = Progress host nx hostname agent actor task

  abbrev turn_of : TurnSpec → TurnDraws → Loop → Action nx.Graph Loop
  turn_of = run_turn host nx hostname agent actor task

  abbrev turns_of : List (TurnSpec × TurnDraws) → Loop → Action nx.Graph Loop
  turns_of = run_turns host nx hostname agent actor task

  -- A turn that comes to its end has added one event, with the digests of the code before and after.
  run_turn_returned :
      (spec : TurnSpec) (draws : TurnDraws) (p q : Loop) (s : Runtime nx.Graph)
      → (turn_of spec draws p s).0 ≡ ok q
      → (o : Outcome host nx hostname agent actor task) × (before : String) × (after : String)
        × (sha256_digest host (text p.code) ≡ ok before)
        × (sha256_digest host (text o.code) ≡ ok after)
        × (advance host nx hostname agent actor task spec p o before after ≡ q)
  unfolding run_turn
  run_turn_returned spec draws p q s e =
      let final = λ (o : Outcome host nx hostname agent actor task) (before after : String).
        pure {G = nx.Graph} (advance host nx hostname agent actor task spec p o before after) in
      let rest = λ (o : Outcome host nx hostname agent actor task) (before : String).
        lift {G = nx.Graph} (sha256_digest host (text o.code)) >>= final o before in
      let gated = λ (d : PolicyDecision) (before : String).
        after_gate host nx hostname agent actor task spec draws p d.decision >>= λ o.
        rest o before in
      let hashed = λ (d : PolicyDecision).
        lift {G = nx.Graph} (sha256_digest host (text p.code)) >>= gated d in
      let gate =
        evaluate host nx hostname draws.gate (gate_request host nx hostname agent actor task spec)
          true in
      let (d, decided, e1) = bind_returned gate hashed s q e in
      let (before, digest, e2) =
        bind_returned (lift (sha256_digest host (text p.code))) (gated d) (gate s).1 q e1 in
      let tested = after_gate host nx hostname agent actor task spec draws p d.decision in
      let (o, came, e3) = bind_returned tested (λ o. rest o before) (gate s).1 q e2 in
      let (after, digest', e4) =
        bind_returned (lift (sha256_digest host (text o.code))) (final o before)
          (tested (gate s).1).1 q e3 in
      (o, before, after, digest, digest', ok_injective e4)

  run_turns-IsHonest :
      (turns : List (TurnSpec × TurnDraws)) (p q : Loop) (s : Runtime nx.Graph)
      → IsHonest p.still_correct p.events
      → (turns_of turns p s).0 ≡ ok q
      → IsHonest q.still_correct q.events
  unfolding run_turns
  run_turns-IsHonest [] p q s h e =
      subst (λ (x : Loop). IsHonest x.still_correct x.events) (ok_injective e) h
  run_turns-IsHonest ((spec, draws) ∷ turns) p q s h e =
      let (r, turned, rest) = bind_returned (turn_of spec draws p) (λ q. turns_of turns q) s q e in
      let (o, before, after, d1, d2, made) = run_turn_returned spec draws p r s turned in
      let event = event_of host nx hostname agent actor task spec p o before after in
      run_turns-IsHonest turns r q (turn_of spec draws p s).1
        (subst (λ (x : Loop). IsHonest x.still_correct x.events) made
          (IsHonest-concat p.still_correct p.events event h refl))
        rest

  -- What a session that comes to its end has gone through.
  pub run_session_returned :
      (start : agent.State) (turns : List (TurnSpec × TurnDraws)) (s : Runtime nx.Graph)
      (r : SessionResult host nx hostname agent actor task)
      → (run_session host nx hostname agent actor task start turns s).0 ≡ ok r
      → (q : Loop) × ((turns_of turns (first_progress host nx hostname agent actor task start) s).0
          ≡ ok q)
        × (session_result host nx hostname agent actor task s.posture
              ((turns_of turns (first_progress host nx hostname agent actor task start) s).1
                ).posture
              q.events
            ≡ r)
  unfolding run_session
  run_session_returned start turns s r e =
      let result = session_result host nx hostname agent actor task in
      let looped = turns_of turns (first_progress host nx hostname agent actor task start) in
      let last = λ (before : Posture) (q : Loop).
        gets (λ (t : Runtime nx.Graph). t.posture) >>= λ after.
        pure {G = nx.Graph} (result before after q.events) in
      let (q, ran, e2) = bind_returned looped (last s.posture) s r e in (q, ran, ok_injective e2)

  -- The flags of the events, and the score.
  pub run_session_regression :
      (start : agent.State) (turns : List (TurnSpec × TurnDraws)) (s : Runtime nx.Graph)
      (r : SessionResult host nx hostname agent actor task)
      → (run_session host nx hostname agent actor task start turns s).0 ≡ ok r
      → (count flagged r.events ≤ 1) × (first_at flagged 1 r.events ≡ r.score.first_regression_turn)
  unfolding session_result first_at
  run_session_regression start turns s r e =
      let (q, ran, made) = run_session_returned start turns s r e in
      let opened = first_progress host nx hostname agent actor task start in
      let fresh : IsHonest opened.still_correct opened.events = record {
        clear = refl;
        first = refl;
        single = refl;
      } in
      let h = run_turns-IsHonest turns opened q s fresh ran in
      subst
        (λ (x : SessionResult host nx hostname agent actor task).
          (count flagged x.events ≤ 1)
          × (first_at flagged 1 x.events ≡ x.score.first_regression_turn))
        made (omega (arith, h.single), h.first ∙ sym (first_regression task.task_id q.events))
