-- ===== src/Governance/Posture.antt =====
-- src/rif_runtime/governance/posture.py: the posture ladder and the thresholds on denials.
pub mod Ratchet
use Prim.Native.Nat.{min}
use mandare.Prelude.{ℕ, ◌+◌, ◌-◌, List, [], ◌∷◌, leb, ltb, length, if◌then◌else◌}
use mandare.Schemas.{Posture, normal, elevated, restricted, locked}

abbrev pub posture_ladder : List Posture
posture_ladder = normal ∷ elevated ∷ restricted ∷ locked ∷ []

-- `POSTURE_LADDER.index(posture)`: the rung, which is found for every posture.
unfoldable pub posture_severity : Posture → ℕ
posture_severity normal = 0
posture_severity elevated = 1
posture_severity restricted = 2
posture_severity locked = 3

-- `POSTURE_LADDER[i]`, for the rungs that `escalate_posture` computes
abbrev pub rung : List Posture → ℕ → Posture
rung [] i = locked
rung (p ∷ []) i = p
rung (p ∷ ps) ℕ.zero = p
rung (p ∷ ps) (ℕ.suc i) = rung ps i

unfoldable pub escalate_posture : Posture → Posture
unfolding posture_severity
escalate_posture current =
    rung posture_ladder (min (posture_severity current + 1) (length posture_ladder - 1))

-- `max(current, floor, key=posture_severity)` keeps the first of two equal ones.
unfoldable pub at_least_posture : Posture → Posture → Posture
unfolding posture_severity
at_least_posture current floor =
    if ltb (posture_severity current) (posture_severity floor) then floor else current

unfoldable pub posture_for_denials : ℕ → Posture
posture_for_denials denials =
    if leb 20 denials
    then locked
    else if leb 10 denials
    then restricted
    else if leb 3 denials
    then elevated
    else normal

-- `PostureManager.next_posture`
unfoldable pub next_posture : Posture → ℕ → Posture
unfolding at_least_posture posture_for_denials
next_posture current denials = keep_or_raise (posture_for_denials denials)
  where
    keep_or_raise : Posture → Posture
    keep_or_raise normal = current
    keep_or_raise candidate = at_least_posture current candidate
