-- ===== src/Runtime/Stable.antt =====
-- What holds between the states before and after every method of src/rif_runtime/runtime.py, if it holds
-- over each of the writes that the methods are made of.
use mandare.Prelude.{
  String, Bool, true, false, Option, some, List, Result, ok, Result-cases, inl, inr, if◌then◌else◌,
}
use mandare.Schemas.{Posture, EnvironmentProfile, PolicyRequest, PolicyDecision, is_allow}
use mandare.Values.{Host, Fields}
use mandare.Graph.{MultiDiGraph}
use mandare.Mcp.Intent.{
  GovernanceMode, MetasploitIntent, CapabilityToken, EvidenceEvent, GovernanceOutcome,
}
use mandare.Capabilities.{
  Capability, CapabilityRecord, CapabilityRegistry, ExecutionManifest, ExecutionResult, register,
  admit, kernel_execute,
}
use mandare.Mcp.Governor.{evaluate as governor_evaluate}
use mandare.Policy.{evaluate as policy_evaluate}
use mandare.Policy.Rules.{PolicyRule}
use mandare.PolicyStore.{list_rules}
use mandare.Runtime.State.{Runtime, Draws, Action, pure, lift, gets, modify, ◌>>=◌, ◌>>◌}
use mandare.Runtime.{
  log_transition, set_environment, log_decision, take_in, record_decision, profile, decide,
  evaluate,
}
use mandare.Runtime.Governed.{
  register_capability, admit_capability, run_admitted, execute_capability, record_outcome,
  evaluate_metasploit, escalate_if, log_evidence, log_capability, execution_row, denial_row,
  denied_result, request_of,
}
use mandare.Runtime.Calls.{
  Call, evaluated, executed, governed, registered, recorded, switched, Calls, idle, next,
}

module _ (host : Host) (nx : MultiDiGraph) where
  -- A relation of states that composes and that each write keeps.
  pub record IsStable (R : Runtime nx.Graph → Runtime nx.Graph → Type 0) : Type 0 where
    pub same : (s : Runtime nx.Graph) → R s s
    pub both : (s t u : Runtime nx.Graph) → R s t → R t u → R s u
    pub takes_in :
        (draws : Draws) (d : PolicyDecision) (s : Runtime nx.Graph)
        → R s (take_in host nx draws d s)
    pub climbs : (severe : Bool) (s : Runtime nx.Graph) → R s (escalate_if host nx severe s)
    pub logs_decision :
        (draws : Draws) (d : PolicyDecision) (s : Runtime nx.Graph)
        → R s (log_decision host nx draws d s).1
    pub logs_transition :
        (old : Posture) (s : Runtime nx.Graph) → R s (log_transition host nx old s).1
    pub logs_evidence :
        (e : EvidenceEvent) (s : Runtime nx.Graph) → R s (log_evidence host nx e s).1
    pub logs_capability : (fs : Fields) (s : Runtime nx.Graph) → R s (log_capability host nx fs s).1
    pub registers :
        (g : CapabilityRegistry) (s : Runtime nx.Graph) → R s (record s { registry = g })
    pub switches : (name : String) (s : Runtime nx.Graph) → R s (set_environment host nx name s).1

module _ (host : Host) (nx : MultiDiGraph) (R : Runtime nx.Graph → Runtime nx.Graph → Type 0)
    (stable : IsStable host nx R) where
  abbrev pub Keeps : {A : Type 0} → Action nx.Graph A → Type 0
  Keeps m = (s : Runtime nx.Graph) → R s (m s).1

  pub Keeps-bind :
      {A B : Type 0}
      → (m : Action nx.Graph A) (f : A → Action nx.Graph B) → Keeps m
      → ((a : A) → Keeps (f a))
      → Keeps (m >>= f)
  Keeps-bind m f h k s = elim (Result-cases ((m s).0)) [
    | inl (a, e) ↦ rw (e, ◌>>=◌) (stable.both s (m s).1 (f a (m s).1).1 (h s) (k a (m s).1))
    | inr (x, e) ↦ rw (e, ◌>>=◌) (h s)
  ]

  pub Keeps-lift : {A : Type 0} → (r : Result A) → Keeps (lift r)
  Keeps-lift r s = stable.same s

  Keeps-if :
      {A : Type 0}
      → (b : Bool) (m n : Action nx.Graph A) → Keeps m
      → Keeps n
      → Keeps (if b then m else n)
  Keeps-if true m n h k = h
  Keeps-if false m n h k = k

  pub record_decision-Keeps :
      (draws : Draws) (d : PolicyDecision) → Keeps (record_decision host nx draws d)
  unfolding record_decision
  record_decision-Keeps draws d =
      let move = λ (old : Posture). log_transition host nx old >> pure d in
      let log = λ (old : Posture). log_decision host nx draws d >> move old in
      Keeps-bind (gets (λ s. s.posture)) (λ old. modify (take_in host nx draws d) >> log old)
        (λ s. stable.same s)
        (λ old.
          Keeps-bind (modify (take_in host nx draws d)) (λ u. log old)
            (λ s. stable.takes_in draws d s)
            (λ u.
              Keeps-bind (log_decision host nx draws d) (λ u. move old)
                (λ s. stable.logs_decision draws d s)
                (λ u.
                  Keeps-bind (log_transition host nx old) (λ u. pure d)
                    (λ s. stable.logs_transition old s) (λ u. Keeps-lift (ok d)))))

  record_outcome-Keeps :
      (draws : Draws) (o : GovernanceOutcome) → Keeps (record_outcome host nx draws o)
  unfolding record_outcome
  record_outcome-Keeps draws o =
      let move = λ (old : Posture). log_transition host nx old >> pure o in
      let sign = λ (old : Posture). log_evidence host nx o.evidence >> move old in
      let log = λ (old : Posture). log_decision host nx draws o.decision >> sign old in
      let climb = λ (old : Posture). modify (escalate_if host nx o.severe) >> log old in
      Keeps-bind (gets (λ s. s.posture))
        (λ old. modify (take_in host nx draws o.decision) >> climb old) (λ s. stable.same s)
        (λ old.
          Keeps-bind (modify (take_in host nx draws o.decision)) (λ u. climb old)
            (λ s. stable.takes_in draws o.decision s)
            (λ u.
              Keeps-bind (modify (escalate_if host nx o.severe)) (λ u. log old)
                (λ s. stable.climbs o.severe s)
                (λ u.
                  Keeps-bind (log_decision host nx draws o.decision) (λ u. sign old)
                    (λ s. stable.logs_decision draws o.decision s)
                    (λ u.
                      Keeps-bind (log_evidence host nx o.evidence) (λ u. move old)
                        (λ s. stable.logs_evidence o.evidence s)
                        (λ u.
                          Keeps-bind (log_transition host nx old) (λ u. pure o)
                            (λ s. stable.logs_transition old s) (λ u. Keeps-lift (ok o)))))))

  evaluate_metasploit-Keeps :
      (signing_key : String) (draws : Draws) (intent : MetasploitIntent) (mode : GovernanceMode)
      (token : Option CapabilityToken) (recording : Bool)
      → Keeps (evaluate_metasploit host nx signing_key draws intent mode token recording)
  unfolding evaluate_metasploit
  evaluate_metasploit-Keeps signing_key draws intent mode token recording =
      let finish =
        λ (o : GovernanceOutcome). if recording then record_outcome host nx draws o else pure o in
      let rule = λ (s : Runtime nx.Graph). lift (
        governor_evaluate host signing_key intent mode s.environment_name s.posture token draws.now
          draws.stamp draws.decision_id) in
      Keeps-bind (gets (λ t. t)) (λ s. rule s >>= finish) (λ s. stable.same s)
        (λ s.
          Keeps-bind (rule s) finish (λ t. stable.same t)
            (λ o.
              Keeps-if recording (record_outcome host nx draws o) (pure o)
                (record_outcome-Keeps draws o) (Keeps-lift (ok o))))

  register_capability-Keeps :
      (c : Capability) (r : CapabilityRecord) → Keeps (register_capability host nx c r)
  unfolding register_capability
  register_capability-Keeps c r =
      let keep =
        λ (g : CapabilityRegistry). modify (λ (t : Runtime nx.Graph). record t { registry = g }) in
      let enter = λ (s : Runtime nx.Graph). lift (register c (some r) s.registry) in
      Keeps-bind (gets (λ t. t)) (λ s. enter s >>= keep) (λ s. stable.same s)
        (λ s. Keeps-bind (enter s) keep (λ t. stable.same t) (λ g t. stable.registers g t))

  admit_capability-Keeps : (name : String) → Keeps (admit_capability host nx name)
  unfolding admit_capability
  admit_capability-Keeps name =
      let keep = λ (g : CapabilityRecord × CapabilityRegistry).
        modify (λ (t : Runtime nx.Graph). record t { registry = g.1 }) >> pure g.0 in
      let enter = λ (s : Runtime nx.Graph). lift (admit name s.registry) in
      Keeps-bind (gets (λ t. t)) (λ s. enter s >>= keep) (λ s. stable.same s)
        (λ s. Keeps-bind (enter s) keep (λ t. stable.same t) (λ g t. stable.registers g.1 t))

  run_admitted-Keeps :
      (m : ExecutionManifest) (d : PolicyDecision) → Keeps (run_admitted host nx m d)
  unfolding run_admitted
  run_admitted-Keeps m d =
      let log = λ (r : CapabilityRecord) (x : ExecutionResult).
        log_capability host nx (execution_row host nx m r d x) >> pure x in
      let run = λ (s : Runtime nx.Graph). lift (kernel_execute m s.registry) in
      Keeps-bind (admit_capability host nx m.capability)
        (λ r. gets (λ t. t) >>= λ s. run s >>= log r) (admit_capability-Keeps m.capability)
        (λ r.
          Keeps-bind (gets (λ t. t)) (λ s. run s >>= log r) (λ s. stable.same s)
            (λ s.
              Keeps-bind (run s) (log r) (λ t. stable.same t)
                (λ x t. stable.logs_capability (execution_row host nx m r d x) t)))

  module _ (hostname : String → Result (Option String)) where
    decide-Keeps : (draws : Draws) (req : PolicyRequest) → Keeps (decide host nx hostname draws req)
    unfolding decide
    decide-Keeps draws req =
        let answer = λ (s : Runtime nx.Graph) (p : EnvironmentProfile) (rules : List PolicyRule).
          lift (policy_evaluate hostname draws.stamp req s.environment_name p s.posture rules) in
        let rules_of = λ (s : Runtime nx.Graph). lift (list_rules s.policy_rows) in
        Keeps-bind (gets (λ t. t))
          (λ s. lift (profile host nx s) >>= λ p. rules_of s >>= answer s p) (λ s. stable.same s)
          (λ s.
            Keeps-bind (lift (profile host nx s)) (λ p. rules_of s >>= answer s p)
              (λ t. stable.same t)
              (λ p.
                Keeps-bind (rules_of s) (answer s p) (λ t. stable.same t)
                  (λ rules t. stable.same t)))

    pub evaluate-Keeps :
        (draws : Draws) (req : PolicyRequest) (recording : Bool)
        → Keeps (evaluate host nx hostname draws req recording)
    unfolding evaluate
    evaluate-Keeps draws req recording =
        Keeps-bind (decide host nx hostname draws req)
          (λ d. if recording then record_decision host nx draws d else pure d)
          (decide-Keeps draws req)
          (λ d.
            Keeps-if recording (record_decision host nx draws d) (pure d)
              (record_decision-Keeps draws d) (Keeps-lift (ok d)))

    execute_capability-Keeps :
        (draws : Draws) (m : ExecutionManifest)
        → Keeps (execute_capability host nx hostname draws m)
    unfolding execute_capability
    execute_capability-Keeps draws m =
        let refuse = λ (d : PolicyDecision).
          log_capability host nx (denial_row host nx m d)
          >> pure (denied_result host nx m d draws.now) in
        Keeps-bind (evaluate host nx hostname draws (request_of m) true)
          (λ d. if is_allow d.decision then run_admitted host nx m d else refuse d)
          (evaluate-Keeps draws (request_of m) true)
          (λ d.
            Keeps-if (is_allow d.decision) (run_admitted host nx m d) (refuse d)
              (run_admitted-Keeps m d) (λ s. stable.logs_capability (denial_row host nx m d) s))

  Call-Keeps : (s t : Runtime nx.Graph) → Call host nx s t → R s t
  Call-Keeps s _ (evaluated hostname draws req recording) =
      evaluate-Keeps hostname draws req recording s
  Call-Keeps s _ (executed hostname draws m) = execute_capability-Keeps hostname draws m s
  Call-Keeps s _ (governed signing_key draws intent mode token recording) =
      evaluate_metasploit-Keeps signing_key draws intent mode token recording s
  Call-Keeps s _ (registered c r) = register_capability-Keeps c r s
  Call-Keeps s _ (recorded draws d) = record_decision-Keeps draws d s
  Call-Keeps s _ (switched name) = stable.switches name s

  pub Calls-Keeps : (s t : Runtime nx.Graph) → Calls host nx s t → R s t
  Calls-Keeps s _ idle = stable.same s
  Calls-Keeps s t (next {t = u} call calls) =
      stable.both s u t (Call-Keeps s u call) (Calls-Keeps u t calls)
