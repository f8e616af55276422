-- ===== src/Schemas.antt =====
-- src/rif_runtime/schemas.py: the records that the engine, the governor and the runtime exchange. A
-- `datetime` is the number of microseconds since the epoch, in UTC. `metadata` of a profile is
-- read nowhere and is left out, as is the free `context` of a request.
use mandare.Prelude.{
  ℕ, String, Bool, true, false, List, Option, ◌≡◌, refl, none, some, ◌==◌, if◌then◌else◌, arith,
}

pub data Decision : Type 0 where
  allow deny review : Decision

pub data Posture : Type 0 where
  normal elevated restricted locked : Posture

pub record PolicyRequest : Type 0 where
  pub actor : String
  pub action : String
  pub target : String
  pub reason : Option String

pub record PolicyDecision : Type 0 where
  pub decision : Decision
  pub actor : String
  pub action : String
  pub target : String
  pub environment : String
  pub posture : Posture
  pub reason : String
  pub matched_rule : String
  pub timestamp : ℕ

pub record EnvironmentProfile : Type 0 where
  pub networking_type : String
  pub allow_mcp_server_network_access : Bool
  pub allow_package_manager_network_access : Bool
  pub allowed_hosts : List String

-- `decision == Decision.deny`, and the like
abbrev pub is_deny : Decision → Bool
is_deny deny = true
is_deny _ = false

abbrev pub is_allow : Decision → Bool
is_allow allow = true
is_allow _ = false

pub allow_of : (d : Decision) → is_allow d ≡ true → d ≡ allow
allow_of d h = ground arith

abbrev pub is_locked : Posture → Bool
is_locked locked = true
is_locked _ = false

-- The text of a `StrEnum` member, `.value`.
unfoldable pub decision_value : Decision → String
decision_value allow = "allow"
decision_value deny = "deny"
decision_value review = "review"

unfoldable pub posture_value : Posture → String
posture_value normal = "normal"
posture_value elevated = "elevated"
posture_value restricted = "restricted"
posture_value locked = "locked"

-- `Decision(text)` and `Posture(text)`; `none` stands for the `ValueError`.
unfoldable pub to_decision : String → Option Decision
to_decision s =
    if s == "allow"
    then some allow
    else if s == "deny"
    then some deny
    else if s == "review"
    then some review
    else none

unfoldable pub to_posture : String → Option Posture
to_posture s =
    if s == "normal"
    then some normal
    else if s == "elevated"
    then some elevated
    else if s == "restricted"
    then some restricted
    else if s == "locked"
    then some locked
    else none

pub to_decision-decision_value : (d : Decision) → to_decision (decision_value d) ≡ some d
unfolding to_decision decision_value
to_decision-decision_value allow = refl
to_decision-decision_value deny = refl
to_decision-decision_value review = refl

pub to_posture-posture_value : (p : Posture) → to_posture (posture_value p) ≡ some p
unfolding to_posture posture_value
to_posture-posture_value normal = refl
to_posture-posture_value elevated = refl
to_posture-posture_value restricted = refl
to_posture-posture_value locked = refl
