-- ===== src/Governance/Posture/Ratchet.antt =====
-- Denials and escalation only ever raise the posture.
use Prim.Native.Nat.{min}
use mandare.Prelude.{ℕ, ◌+◌, ◌≤◌, ◌≡◌, refl, arith}
use mandare.Schemas.{Posture, normal, elevated, restricted, locked}
use mandare.Governance.Posture.{
  posture_severity, escalate_posture, at_least_posture, posture_for_denials, next_posture,
}

pub severity_injective : (p q : Posture) → posture_severity p ≡ posture_severity q → p ≡ q
unfolding posture_severity
severity_injective p q h = ground arith

-- The more restrictive of two postures is an upper bound of both, and it is one of them.
pub at_least_posture_bounds :
    (p q : Posture)
    → (posture_severity p ≤ posture_severity (at_least_posture p q))
      × (posture_severity q ≤ posture_severity (at_least_posture p q))
unfolding at_least_posture
at_least_posture_bounds p q = ground arith

-- Escalation climbs exactly one rung and stops at the top.
pub severity-escalate :
    (p : Posture) → posture_severity (escalate_posture p) ≡ min (posture_severity p + 1) 3
unfolding escalate_posture
severity-escalate normal = refl
severity-escalate elevated = refl
severity-escalate restricted = refl
severity-escalate locked = refl

-- The posture after some denials is the more restrictive of the current one and of the one that the
-- denials call for; so it is never below the current one.
pub next_posture-eq-at_least :
    (p : Posture) (n : ℕ) → next_posture p n ≡ at_least_posture p (posture_for_denials n)
unfolding next_posture
next_posture-eq-at_least p n = ground arith

pub severity-le-next :
    (p : Posture) (n : ℕ) → posture_severity p ≤ posture_severity (next_posture p n)
severity-le-next p n =
    rw next_posture-eq-at_least ((at_least_posture_bounds p (posture_for_denials n)).0)

pub severity-le-escalate :
    (p : Posture) → posture_severity p ≤ posture_severity (escalate_posture p)
unfolding escalate_posture
severity-le-escalate p = ground arith

-- More denials never call for a milder posture.
pub posture_for_denials_mono :
    (m n : ℕ)
    → m ≤ n
    → posture_severity (posture_for_denials m) ≤ posture_severity (posture_for_denials n)
unfolding posture_for_denials posture_severity
posture_for_denials_mono m n h = ground arith

-- The ratchet does not depend on when denials are counted: two counts one after the other give what
-- the larger one gives.
pub next_posture_twice :
    (p : Posture) (m n : ℕ) → m ≤ n → next_posture (next_posture p m) n ≡ next_posture p n
unfolding next_posture posture_severity
next_posture_twice p m n h = ground arith
