-- ===== src/Runtime/Recording.antt =====
-- What `record_decision` of src/rif_runtime/runtime.py returns, and what it leaves alone.
use mandare.Prelude.{◌≡◌, refl, ap, ◌∙◌, inl, inr, Bool-cases, ok, Result-cases, ok_injective}
use mandare.Schemas.{Posture, PolicyDecision}
use mandare.Values.{Host}
use mandare.Graph.{MultiDiGraph}
use mandare.Storage.Chain.{append_chained}
use mandare.Runtime.State.{Runtime, Draws, Action, pure, gets, modify, ◌>>=◌, ◌>>◌}
use mandare.Runtime.{model_dump, differs, take_in, log_decision, log_transition, record_decision}

module _ {G : Type 0} where
  -- What a sequence returned was returned by its second part, after the first.
  pub bind_returned :
      {A B : Type 0}
      → (m : Action G A) (f : A → Action G B) (s : Runtime G) (b : B) → ((m >>= f) s).0 ≡ ok b
      → (a : A) × ((m s).0 ≡ ok a) × ((f a (m s).1).0 ≡ ok b)
  bind_returned m f s b e = elim (Result-cases ((m s).0)) [
    | inl (a, r) ↦ (a, r, rw (r, ◌>>=◌) at e)
    | inr (x, r) ↦ cc (rw (r, ◌>>=◌) at e)
  ]

  pub bind_after :
      {A B : Type 0}
      → (m : Action G A) (f : A → Action G B) (s : Runtime G) (a : A) → (m s).0 ≡ ok a
      → (m >>= f) s ≡ f a (m s).1
  bind_after m f s a e = rw (e, ◌>>=◌) refl

  -- The action leaves the registry alone.
  abbrev pub KeepsRegistry : {A : Type 0} → Action G A → Type 0
  KeepsRegistry m = (s : Runtime G) → (m s).1.registry ≡ s.registry

  pub KeepsRegistry-bind :
      {A B : Type 0}
      → (m : Action G A) (f : A → Action G B) → KeepsRegistry m
      → ((a : A) → KeepsRegistry (f a))
      → KeepsRegistry (m >>= f)
  KeepsRegistry-bind m f h k s = elim (Result-cases ((m s).0)) [
    | inl (a, r) ↦ rw (r, ◌>>=◌) (k a (m s).1 ∙ h s)
    | inr (x, r) ↦ rw (r, ◌>>=◌) (h s)
  ]

module _ (host : Host) (nx : MultiDiGraph) where
  log_transition-KeepsRegistry : (old : Posture) → KeepsRegistry (log_transition host nx old)
  unfolding log_transition
  log_transition-KeepsRegistry old s = elim (Bool-cases (differs old s.posture)) [
    | inl moved ↦ rw moved refl
    | inr same ↦ rw same refl
  ]

  log_decision-KeepsRegistry :
      (draws : Draws) (d : PolicyDecision) → KeepsRegistry (log_decision host nx draws d)
  unfolding log_decision
  log_decision-KeepsRegistry draws d s =
      elim (Result-cases
        (append_chained host draws.event_id draws.written_at (model_dump d) s.decisions)) [
          | inl (lines, e) ↦ rw e refl
          | inr (x, e) ↦ rw e refl
        ]

  log_transition_decisions :
      (old : Posture) (s : Runtime nx.Graph)
      → (log_transition host nx old s).1.decisions ≡ s.decisions
  unfolding log_transition
  log_transition_decisions old s = elim (Bool-cases (differs old s.posture)) [
    | inl moved ↦ rw moved refl
    | inr same ↦ rw same refl
  ]

  log_transition_returns :
      (old : Posture) (s : Runtime nx.Graph) → (log_transition host nx old s).0 ≡ ok tt
  unfolding log_transition
  log_transition_returns old s = elim (Bool-cases (differs old s.posture)) [
    | inl moved ↦ rw moved refl
    | inr same ↦ rw same refl
  ]

  log_decision_written :
      (draws : Draws) (d : PolicyDecision) (s : Runtime nx.Graph) (v : Unit {0})
      → (log_decision host nx draws d s).0 ≡ ok v
      → append_chained host draws.event_id draws.written_at (model_dump d) s.decisions
        ≡ ok (log_decision host nx draws d s).1.decisions
  unfolding log_decision
  log_decision_written draws d s v r =
      elim (Result-cases
        (append_chained host draws.event_id draws.written_at (model_dump d) s.decisions)) [
          | inl (lines, e) ↦ rw e refl
          | inr (x, e) ↦ cc (rw e at r)
        ]

  module _ (draws : Draws) (d : PolicyDecision) where
    -- The parts of `record_decision`, from the last.
    abbrev move : Posture → Action nx.Graph PolicyDecision
    move old = log_transition host nx old >> pure d

    abbrev log : Posture → Action nx.Graph PolicyDecision
    log old = log_decision host nx draws d >> move old

    abbrev take : Posture → Action nx.Graph PolicyDecision
    take old = modify (take_in host nx draws d) >> log old

    pub record_decision-KeepsRegistry : KeepsRegistry (record_decision host nx draws d)
    unfolding record_decision take_in
    record_decision-KeepsRegistry =
        KeepsRegistry-bind (gets (λ s. s.posture)) take (λ s. refl)
          (λ old.
            KeepsRegistry-bind (modify (take_in host nx draws d)) (λ u. log old) (λ s. refl)
              (λ u.
                KeepsRegistry-bind (log_decision host nx draws d) (λ u. move old)
                  (log_decision-KeepsRegistry draws d)
                  (λ u.
                    KeepsRegistry-bind (log_transition host nx old) (λ u. pure d)
                      (log_transition-KeepsRegistry old) (λ u s. refl))))

    -- What `record_decision` returns is the decision that it recorded.
    pub record_decision_returned :
        (s : Runtime nx.Graph) (x : PolicyDecision)
        → (record_decision host nx draws d s).0 ≡ ok x
        → d ≡ x
    unfolding record_decision
    record_decision_returned s x e =
        let (old, r0, e1) = bind_returned (gets (λ s. s.posture)) take s x e in
        let (u, r1, e2) = bind_returned (modify (take_in host nx draws d)) (λ u. log old) s x e1 in
        let s' = take_in host nx draws d s in
        let (v, r2, e3) = bind_returned (log_decision host nx draws d) (λ u. move old) s' x e2 in
        let s'' = (log_decision host nx draws d s').1 in
        let (w, r3, e4) = bind_returned (log_transition host nx old) (λ u. pure d) s'' x e3 in
        ok_injective e4

    -- Where `record_decision` returns, the log of decisions is the log before with one append.
    pub record_decision_logged :
        (s : Runtime nx.Graph) (x : PolicyDecision)
        → (record_decision host nx draws d s).0 ≡ ok x
        → append_chained host draws.event_id draws.written_at (model_dump d) s.decisions
          ≡ ok (record_decision host nx draws d s).1.decisions
    unfolding record_decision take_in
    record_decision_logged s x e =
        let (old, r0, e1) = bind_returned (gets (λ s. s.posture)) take s x e in
        let (u, r1, e2) = bind_returned (modify (take_in host nx draws d)) (λ u. log old) s x e1 in
        let s' = take_in host nx draws d s in
        let (v, r2, e3) = bind_returned (log_decision host nx draws d) (λ u. move old) s' x e2 in
        let s'' = (log_decision host nx draws d s').1 in
        let after =
          bind_after (log_decision host nx draws d) (λ u. move s.posture) s' v r2
          ∙ bind_after (log_transition host nx s.posture) (λ u. pure d) s'' tt
              (log_transition_returns s.posture s'') in
        let kept = ap (λ r. r.1.decisions) after ∙ log_transition_decisions s.posture s'' in
        rw kept (log_decision_written draws d s' v r2)
