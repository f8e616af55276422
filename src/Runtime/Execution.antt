-- ===== src/Runtime/Execution.antt =====
-- What the result of a capability rests on, over the methods of src/rif_runtime/runtime.py.
use mandare.Prelude.{
  String, ◌≡◌, refl, sym, ◌∙◌, ap, ◌⊎◌, inl, inr, Bool, true, false, Bool-cases, Option, some, List,
  lookup, Result, ok, ok_injective, if◌then◌else◌,
}
use mathlib.Core.Path.{subst}
use mandare.Schemas.{
  allow, is_allow, allow_of, is_locked, PolicyRequest, PolicyDecision, EnvironmentProfile,
}
use mandare.Values.{Host}
use mandare.Graph.{MultiDiGraph}
use mandare.Policy.{evaluate as policy_evaluate}
use mandare.Policy.Rules.{PolicyRule}
use mandare.Policy.Egress.{RulePermits, EgressOpen}
use mandare.Policy.Verdict.{evaluate_allow_justified}
use mandare.PolicyStore.{list_rules}
use mandare.Capabilities.{
  CapabilityRecord, CapabilityRegistry, ExecutionManifest, ExecutionResult, admit, kernel_execute,
}
use mandare.Capabilities.Admission.{IsAdmissible, admit_needs_evidence}
use mandare.Runtime.State.{Runtime, Draws, pure, lift, gets, modify, ◌>>=◌, ◌>>◌}
use mandare.Runtime.{profile, decide, evaluate, record_decision}
use mandare.Runtime.Governed.{
  admit_capability, run_admitted, execute_capability, log_capability, execution_row, denial_row,
  denied_result, request_of,
}
use mandare.Runtime.DryRun.{decide-Reads}
use mandare.Runtime.Recording.{
  bind_returned, KeepsRegistry, KeepsRegistry-bind, record_decision-KeepsRegistry,
  record_decision_returned,
}

module _ (host : Host) (nx : MultiDiGraph) where
  module _ (hostname : String → Result (Option String)) where
    -- An answer of the engine to a request in a state, and the profile and rules that it went by.
    pub record IsAnswer (draws : Draws) (req : PolicyRequest) (s : Runtime nx.Graph)
        (d : PolicyDecision) : Type 0 where
      pub env_profile : EnvironmentProfile
      pub rules : List PolicyRule
      pub selected : profile host nx s ≡ ok env_profile
      pub configured : list_rules s.policy_rows ≡ ok rules
      pub answered :
          policy_evaluate hostname draws.stamp req s.environment_name env_profile s.posture rules
          ≡ ok d

    decide-IsAnswer :
        (draws : Draws) (req : PolicyRequest) (s : Runtime nx.Graph) (d : PolicyDecision)
        → (decide host nx hostname draws req s).0 ≡ ok d
        → IsAnswer draws req s d
    unfolding decide
    decide-IsAnswer draws req s d e =
        let answer = λ (p : EnvironmentProfile) (rules : List PolicyRule).
          lift {G = nx.Graph}
            (policy_evaluate hostname draws.stamp req s.environment_name p s.posture rules) in
        let rules_of = lift {G = nx.Graph} (list_rules s.policy_rows) in
        let (p, selected, e1) =
          bind_returned (lift (profile host nx s)) (λ p. rules_of >>= answer p) s d e in
        let (rules, configured, e2) = bind_returned rules_of (answer p) s d e1 in
        record {
          env_profile = p;
          rules = rules;
          selected = selected;
          configured = configured;
          answered = e2;
        }

    -- What `evaluate` returns is the engine's answer, whether it is recorded or not.
    pub evaluate-IsAnswer :
        (draws : Draws) (req : PolicyRequest) (recording : Bool) (s : Runtime nx.Graph)
        (d : PolicyDecision)
        → (evaluate host nx hostname draws req recording s).0 ≡ ok d
        → IsAnswer draws req s d
    unfolding evaluate
    evaluate-IsAnswer draws req recording s d e =
        let (d', decided, rest) =
          bind_returned (decide host nx hostname draws req)
            (λ d. if recording then record_decision host nx draws d else pure d) s d e in
        let t = (decide host nx hostname draws req s).1 in
        let same : d' ≡ d = elim (Bool-cases recording) [
          | inl yes_it_is ↦ record_decision_returned host nx draws d' t d (rw yes_it_is at rest)
          | inr no_it_is_not ↦ ok_injective (rw no_it_is_not at rest)
        ] in
        decide-IsAnswer draws req s d (decided ∙ ap ok same)

    evaluate-KeepsRegistry :
        (draws : Draws) (req : PolicyRequest) (recording : Bool)
        → KeepsRegistry (evaluate host nx hostname draws req recording)
    unfolding evaluate
    evaluate-KeepsRegistry draws req recording =
        KeepsRegistry-bind (decide host nx hostname draws req)
          (λ d. if recording then record_decision host nx draws d else pure d)
          (λ s.
            ap (λ (t : Runtime nx.Graph). t.registry) (decide-Reads host nx hostname draws req s))
          (λ d s. elim (Bool-cases recording) [
            | inl yes_it_is ↦ rw yes_it_is (record_decision-KeepsRegistry host nx draws d s)
            | inr no_it_is_not ↦ rw no_it_is_not refl
          ])

    -- An answer that allows, with what it rests on.
    pub record IsAuthorised (draws : Draws) (req : PolicyRequest) (s : Runtime nx.Graph)
        : Type 0 where
      pub decision : PolicyDecision
      pub answer : IsAnswer draws req s decision
      pub allows : decision.decision ≡ allow
      pub unlocked : is_locked s.posture ≡ false
      pub justified :
          RulePermits hostname req answer.rules ⊎ EgressOpen hostname req answer.env_profile

    pub IsAnswer-IsAuthorised :
        (draws : Draws) (req : PolicyRequest) (s : Runtime nx.Graph) (d : PolicyDecision)
        → IsAnswer draws req s d
        → d.decision ≡ allow
        → IsAuthorised draws req s
    IsAnswer-IsAuthorised draws req s d answer allows =
        let (unlocked, justified) =
          evaluate_allow_justified hostname draws.stamp req s.environment_name answer.env_profile
            s.posture answer.rules d answer.answered allows in
        record {
          decision = d;
          answer = answer;
          allows = allows;
          unlocked = unlocked;
          justified = justified;
        }

    run_admitted_returned :
        (m : ExecutionManifest) (d : PolicyDecision) (s : Runtime nx.Graph) (x : ExecutionResult)
        → (run_admitted host nx m d s).0 ≡ ok x
        → (out : CapabilityRecord × CapabilityRegistry) × (admit m.capability s.registry ≡ ok out)
    unfolding run_admitted admit_capability
    run_admitted_returned m d s x e =
        let log = λ (r : CapabilityRecord) (x : ExecutionResult).
          log_capability host nx (execution_row host nx m r d x) >> pure x in
        let run = λ (t : Runtime nx.Graph). lift (kernel_execute m t.registry) in
        let (r, entered, e1) =
          bind_returned (admit_capability host nx m.capability)
            (λ r. gets (λ t. t) >>= λ t. run t >>= log r) s x e in
        let keep = λ (g : CapabilityRecord × CapabilityRegistry).
          modify (λ (t : Runtime nx.Graph). record t { registry = g.1 }) >> pure g.0 in
        let (out, e2, e3) = bind_returned (lift (admit m.capability s.registry)) keep s r entered in
        (out, e2)

    -- A result of `execute_capability` is one of two things. Either the engine's answer to the
    -- request that the manifest makes was not an allow, and the result is `denied` with that
    -- answer's reason; or the engine allowed, which it does on the ground of a rule or of the
    -- profile and never under lockdown, and the capability was registered with the evidence that
    -- admission asks for before the call.
    pub execute_capability_needs_authority :
        (draws : Draws) (m : ExecutionManifest) (s : Runtime nx.Graph) (x : ExecutionResult)
        → (execute_capability host nx hostname draws m s).0 ≡ ok x
        → ((d : PolicyDecision) × IsAnswer draws (request_of m) s d
            × (is_allow d.decision ≡ false)
            × (x ≡ denied_result host nx m d draws.now))
          ⊎ (IsAuthorised draws (request_of m) s
              × (r : CapabilityRecord) × (lookup m.capability s.registry.records ≡ some r)
              × IsAdmissible r)
    unfolding execute_capability
    execute_capability_needs_authority draws m s x e =
        let refuse = λ (d : PolicyDecision).
          log_capability host nx (denial_row host nx m d)
          >> pure (denied_result host nx m d draws.now) in
        let (d, decided, rest) =
          bind_returned (evaluate host nx hostname draws (request_of m) true)
            (λ d. if is_allow d.decision then run_admitted host nx m d else refuse d) s x e in
        let t = (evaluate host nx hostname draws (request_of m) true s).1 in
        let answer = evaluate-IsAnswer draws (request_of m) true s d decided in
        elim (Bool-cases (is_allow d.decision)) [
          | inr no_it_is_not ↦
              inl (d, answer, no_it_is_not, sym (ok_injective (rw no_it_is_not at rest)))
          | inl yes_it_is ↦
              let (out, entered) = run_admitted_returned m d t x (rw yes_it_is at rest) in
              let same = evaluate-KeepsRegistry draws (request_of m) true s in
              let (r, found, good, now, under, rest_of) =
                admit_needs_evidence m.capability s.registry out.1 out.0 (
                  subst (λ (g : CapabilityRegistry). admit m.capability g ≡ ok out) same entered) in
              inr (
                IsAnswer-IsAuthorised draws (request_of m) s d answer
                    (allow_of d.decision yes_it_is),
                r,
                found,
                good,
              )
        ]
