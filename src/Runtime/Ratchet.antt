-- ===== src/Runtime/Ratchet.antt =====
-- How the posture moves over the methods of src/rif_runtime/runtime.py.
use mandare.Prelude.{
  String, ◌≤◌, Bool, true, false, Option, has_key, arith, Result, Bool-cases, Result-cases, inl,
  inr, if◌then◌else◌,
}
use mandare.Schemas.{Posture, PolicyRequest, PolicyDecision}
use mandare.Values.{Host}
use mandare.Graph.{MultiDiGraph}
use mandare.Governance.Posture.{posture_severity}
use mandare.Governance.Posture.Ratchet.{severity-le-next, severity-le-escalate}
use mandare.Governance.Reflexive.{observe}
use mandare.Storage.Chain.{append_chained}
use mandare.Runtime.State.{Runtime, Draws, Action, lift, modify, ◌>>=◌}
use mandare.Runtime.{
  model_dump, differs, log_transition, set_environment, log_decision, take_in, record_decision,
  evaluate,
}
use mandare.Runtime.Governed.{escalate_if}
use mandare.Runtime.Calls.{Calls}
use mandare.Runtime.Stable.{IsStable, record_decision-Keeps, evaluate-Keeps, Calls-Keeps}

module _ {G : Type 0} where
  -- The action never lowers the posture, whether it returns or raises.
  abbrev pub KeepsGuard : {A : Type 0} → Action G A → Type 0
  KeepsGuard m = (s : Runtime G) → posture_severity s.posture ≤ posture_severity ((m s).1).posture

  pub KeepsGuard-bind :
      {A B : Type 0}
      → (m : Action G A) (f : A → Action G B) → KeepsGuard m
      → ((a : A) → KeepsGuard (f a))
      → KeepsGuard (m >>= f)
  KeepsGuard-bind m f h k s = elim (Result-cases ((m s).0)) [
    | inl (a, e) ↦ rw (e, ◌>>=◌) (omega (arith, h s, k a (m s).1))
    | inr (x, e) ↦ rw (e, ◌>>=◌) (h s)
  ]

  -- An action that leaves the state alone.
  pub KeepsGuard-lift : {A : Type 0} → (r : Result A) → KeepsGuard (lift r)
  KeepsGuard-lift r s = omega arith

  pub KeepsGuard-if :
      {A : Type 0}
      → (b : Bool) (m n : Action G A) → KeepsGuard m
      → KeepsGuard n
      → KeepsGuard (if b then m else n)
  KeepsGuard-if true m n h k = h
  KeepsGuard-if false m n h k = k

module _ (host : Host) (nx : MultiDiGraph) where
  log_transition-KeepsGuard : (old : Posture) → KeepsGuard (log_transition host nx old)
  unfolding log_transition
  log_transition-KeepsGuard old s = elim (Bool-cases (differs old s.posture)) [
    | inl moved ↦ rw moved (omega arith)
    | inr same ↦ rw same (omega arith)
  ]

  log_decision-KeepsGuard :
      (draws : Draws) (d : PolicyDecision) → KeepsGuard (log_decision host nx draws d)
  unfolding log_decision
  log_decision-KeepsGuard draws d s =
      elim (Result-cases
        (append_chained host draws.event_id draws.written_at (model_dump d) s.decisions)) [
          | inl (lines, e) ↦ rw e (omega arith)
          | inr (x, e) ↦ rw e (omega arith)
        ]

  take_in-KeepsGuard :
      (draws : Draws) (d : PolicyDecision) → KeepsGuard (modify (take_in host nx draws d))
  unfolding take_in observe
  take_in-KeepsGuard draws d s = severity-le-next s.posture _

  escalate_if-KeepsGuard : (severe : Bool) → KeepsGuard (modify (escalate_if host nx severe))
  escalate_if-KeepsGuard true s = severity-le-escalate s.posture
  escalate_if-KeepsGuard false s = omega arith

  set_environment-KeepsGuard : (name : String) → KeepsGuard (set_environment host nx name)
  unfolding set_environment
  set_environment-KeepsGuard name s = elim (Bool-cases (has_key name s.environments)) [
    | inl known ↦ rw known (omega arith)
    | inr unknown ↦ rw unknown (omega arith)
  ]

  -- Every write keeps the guard.
  guard-IsStable : IsStable host nx (λ s t. posture_severity s.posture ≤ posture_severity t.posture)
  guard-IsStable = record {
    same = λ s. omega arith;
    both = λ s t u h k. omega arith;
    takes_in = take_in-KeepsGuard;
    climbs = escalate_if-KeepsGuard;
    logs_decision = log_decision-KeepsGuard;
    logs_transition = log_transition-KeepsGuard;
    logs_evidence = λ e s. omega arith;
    logs_capability = λ fs s. omega arith;
    registers = λ g s. omega arith;
    switches = set_environment-KeepsGuard;
  }

  pub record_decision-KeepsGuard :
      (draws : Draws) (d : PolicyDecision) → KeepsGuard (record_decision host nx draws d)
  record_decision-KeepsGuard =
      record_decision-Keeps host nx (λ s t. posture_severity s.posture ≤ posture_severity t.posture)
        guard-IsStable

  pub evaluate-KeepsGuard :
      (hostname : String → Result (Option String)) (draws : Draws) (req : PolicyRequest)
      (recording : Bool)
      → KeepsGuard (evaluate host nx hostname draws req recording)
  evaluate-KeepsGuard =
      evaluate-Keeps host nx (λ s t. posture_severity s.posture ≤ posture_severity t.posture)
        guard-IsStable

  -- Over any sequence of calls of `evaluate`, `record_decision`, `execute_capability`,
  -- `evaluate_metasploit`, `register_capability` and `set_environment`, whatever they return or raise,
  -- the posture never becomes less restrictive.
  pub Calls-keep_guard :
      (s t : Runtime nx.Graph)
      → Calls host nx s t
      → posture_severity s.posture ≤ posture_severity t.posture
  Calls-keep_guard =
      Calls-Keeps host nx (λ s t. posture_severity s.posture ≤ posture_severity t.posture)
        guard-IsStable
