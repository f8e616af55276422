-- ===== src/Explainability.antt =====
-- src/rif_runtime/explainability.py: the explanation of a decision. The environment is a free dict.
use mandare.Prelude.{ℕ, String, Bool, true, List, [], ◌∷◌}
use mandare.Values.{Fields}
use mandare.Schemas.{Posture, PolicyRequest, PolicyDecision}

pub record DecisionExplanation : Type 0 where
  pub decision_id : String
  pub request : PolicyRequest
  pub decision : PolicyDecision
  pub precedence : List String
  pub posture_before : Posture
  pub posture_after : Posture
  pub environment_snapshot : Fields
  pub replay_consistent : Bool
  pub timestamp : ℕ

-- The default of `precedence`.
abbrev pub default_precedence : List String
default_precedence = "posture" ∷ "policy" ∷ "mcp" ∷ "package" ∷ "network" ∷ "default" ∷ []

-- `from_decision`, with the identifier and the time that it draws
abbrev pub from_decision :
    String
    → ℕ
    → PolicyRequest
    → PolicyDecision
    → Posture
    → Posture
    → Fields
    → List String
    → DecisionExplanation
from_decision decision_id now req d before after environment precedence = record {
  decision_id = decision_id;
  request = req;
  decision = d;
  precedence = precedence;
  posture_before = before;
  posture_after = after;
  environment_snapshot = environment;
  replay_consistent = true;
  timestamp = now;
}
