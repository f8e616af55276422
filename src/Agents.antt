-- ===== src/Agents.antt =====
-- src/rif_runtime/agents: agents that make requests and read decisions. `auditor.py` is part of the
-- route that reports the audit.
use mandare.Prelude.{
  String, Bool, true, false, not, ◌&&◌, ◌==◌, ◌≡◌, refl, Option, List, same_char, if◌then◌else◌,
}
use mandare.Values.{text, Fields, end, field}
use mandare.Schemas.{Posture, PolicyRequest, PolicyDecision, is_deny, decision_value}
use mandare.Governance.Drift.{Floats, DriftVector, recommend_correction}

-- src/rif_runtime/agents/manifest.py
pub record AgentManifest : Type 0 where
  pub name : String
  pub kind : String
  pub description : String
  pub owns : List String
  pub responsibilities : List String
  pub inputs : List String
  pub outputs : List String
  pub depends_on : List String
  pub blocks : List String
  pub quality_gates : List String
  pub invariants : List String

-- `TemplateAgent` of src/rif_runtime/agents/template.py
pub record TemplateAgent : Type 0 where
  pub name : String
  pub description : String

-- `text.partition(":")`, without the separator
unfoldable pub partition_colon : String → String × String
partition_colon String.[] = ("", "")
partition_colon (String.◌∷◌ c s) =
    let (prefix, role) = partition_colon s in
    if same_char c ":" then ("", s) else (String.◌∷◌ c prefix, role)

-- `validate`
unfoldable pub validate : TemplateAgent → Bool
unfolding partition_colon
validate agent =
    let (prefix, role) = partition_colon agent.name in prefix == "agent" && not (role == "")

-- `request`; the free context is read nowhere
abbrev pub request : TemplateAgent → String → String → Option String → PolicyRequest
request agent action target reason = record {
  actor = agent.name;
  action = action;
  target = target;
  reason = reason;
}

abbrev pub handle_decision : TemplateAgent → PolicyDecision → Fields
handle_decision agent d =
    field "agent" (text agent.name)
      (field "decision" (text (decision_value d.decision)) (field "rule" (text d.matched_rule) end))

abbrev pub to_dict : TemplateAgent → Fields
to_dict agent = field "name" (text agent.name) (field "description" (text agent.description) end)

-- `DeputyAgent.review` of src/rif_runtime/agents/deputy.py
abbrev pub finding : String → String → String → Fields
finding what rule recommendation = field "agent" (text "agent:deputy") (
    field "finding" (text what)
      (field "rule" (text rule) (field "recommendation" (text recommendation) end)))

unfoldable pub review : PolicyDecision → Fields
review d =
    if is_deny d.decision
    then finding "policy denial observed" d.matched_rule
        "inspect target, actor intent, and environment posture"
    else finding "request allowed" d.matched_rule "continue monitoring"

-- `OrchestratorAgent` of src/rif_runtime/agents/orchestrator.py
abbrev pub request_http : String → Option String → PolicyRequest
request_http target reason = record {
  actor = "agent:orchestrator";
  action = "http.request";
  target = target;
  reason = reason;
}

abbrev pub choose_correction : (fl : Floats) → DriftVector fl → Posture
choose_correction fl v = recommend_correction fl v

-- Only the first colon parts a name.
validate_run :
    (validate (record { name = "agent:a:b"; description = "" }) ≡ true)
    × (validate (record { name = "agent:"; description = "" }) ≡ false)
    × (validate (record { name = "user:a"; description = "" }) ≡ false)
unfolding validate
validate_run = (refl, refl, refl)
