-- ===== src/Runtime/DryRun.antt =====
-- Calls of src/rif_runtime/runtime.py with `record=False`.
use mandare.Prelude.{
  String, ◌≡◌, refl, ◌∙◌, false, Option, List, Result, Result-cases, inl, inr, if◌then◌else◌,
}
use mandare.Schemas.{EnvironmentProfile, PolicyRequest}
use mandare.Values.{Host}
use mandare.Graph.{MultiDiGraph}
use mandare.Mcp.Governor.{evaluate as governor_evaluate}
use mandare.Mcp.Intent.{GovernanceMode, MetasploitIntent, CapabilityToken, GovernanceOutcome}
use mandare.Policy.{evaluate as policy_evaluate}
use mandare.Policy.Rules.{PolicyRule}
use mandare.PolicyStore.{list_rules}
use mandare.Runtime.State.{Runtime, Draws, Action, pure, lift, gets, ◌>>=◌}
use mandare.Runtime.{record_decision, profile, decide, evaluate}
use mandare.Runtime.Governed.{record_outcome, evaluate_metasploit}

module _ {G : Type 0} where
  -- The action changes nothing, whether it returns or raises.
  abbrev pub Reads : {A : Type 0} → Action G A → Type 0
  Reads m = (s : Runtime G) → (m s).1 ≡ s

  Reads-bind :
      {A B : Type 0}
      → (m : Action G A) (f : A → Action G B) → Reads m
      → ((a : A) → Reads (f a))
      → Reads (m >>= f)
  Reads-bind m f h k s = elim (Result-cases ((m s).0)) [
    | inl (a, e) ↦ rw (e, ◌>>=◌) (k a (m s).1 ∙ h s)
    | inr (x, e) ↦ rw (e, ◌>>=◌) (h s)
  ]

  Reads-lift : {A : Type 0} → (r : Result A) → Reads (lift r)
  Reads-lift r s = refl

module _ (host : Host) (nx : MultiDiGraph) where
  pub decide-Reads :
      (hostname : String → Result (Option String)) (draws : Draws) (req : PolicyRequest)
      → Reads (decide host nx hostname draws req)
  unfolding decide
  decide-Reads hostname draws req =
      let answer = λ (s : Runtime nx.Graph) (p : EnvironmentProfile) (rules : List PolicyRule).
        lift (policy_evaluate hostname draws.stamp req s.environment_name p s.posture rules) in
      let rules_of = λ (s : Runtime nx.Graph). lift (list_rules s.policy_rows) in
      Reads-bind (gets (λ t. t)) (λ s. lift (profile host nx s) >>= λ p. rules_of s >>= answer s p)
        (λ s. refl)
        (λ s.
          Reads-bind (lift (profile host nx s)) (λ p. rules_of s >>= answer s p)
            (Reads-lift (profile host nx s))
            (λ p.
              Reads-bind (rules_of s) (answer s p) (Reads-lift (list_rules s.policy_rows))
                (λ rules t. refl)))

  -- An evaluation that is not to be recorded leaves the runtime and its files as they are.
  pub evaluate-Reads :
      (hostname : String → Result (Option String)) (draws : Draws) (req : PolicyRequest)
      → Reads (evaluate host nx hostname draws req false)
  unfolding evaluate
  evaluate-Reads hostname draws req =
      Reads-bind (decide host nx hostname draws req)
        (λ d. if false then record_decision host nx draws d else pure d)
        (decide-Reads hostname draws req) (λ d s. refl)

  pub evaluate_metasploit-Reads :
      (signing_key : String) (draws : Draws) (intent : MetasploitIntent) (mode : GovernanceMode)
      (token : Option CapabilityToken)
      → Reads (evaluate_metasploit host nx signing_key draws intent mode token false)
  unfolding evaluate_metasploit
  evaluate_metasploit-Reads signing_key draws intent mode token =
      let finish =
        λ (o : GovernanceOutcome). if false then record_outcome host nx draws o else pure o in
      let rule = λ (s : Runtime nx.Graph). lift (
        governor_evaluate host signing_key intent mode s.environment_name s.posture token draws.now
          draws.stamp draws.decision_id) in
      Reads-bind (gets (λ t. t)) (λ s. rule s >>= finish) (λ s. refl)
        (λ s. Reads-bind (rule s) finish (λ t. refl) (λ o t. refl))
