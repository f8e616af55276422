-- ===== src/Runtime/Restore.antt =====
-- What a process starts in: `_restore_posture` of src/rif_runtime/runtime.py, and the fallback to
-- `ReplayEngine.recover_posture` of src/rif_runtime/replay.py.
use mandare.Prelude.{
  ℕ, ◌+◌, Option, none, some, List, [], ◌∷◌, if◌then◌else◌, Result, ok, err, type_error, ◌>>=◌,
}
use mandare.Schemas.{Posture, to_posture}
use mandare.Values.{Value, text, dict, get_field, as_dict, is_text}
use mandare.Governance.Posture.{at_least_posture, posture_for_denials}
use mandare.Storage.{Line, read_all, read_plain}

-- `Posture(row["new_posture"])`: `none` where that raises the `KeyError` or the `ValueError` that the
-- loop skips; a row that is no dict raises a `TypeError`.
unfoldable pub posture_of_row : Value → Result (Option Posture)
posture_of_row (dict fs) = ok (posture_of (get_field "new_posture" fs))
  where
    posture_of : Option Value → Option Posture
    posture_of (some (text s)) = to_posture s
    posture_of _ = none
posture_of_row _ = err type_error

-- The loop over the reversed history, written over the history: the last row that names a posture.
unfoldable pub last_posture : List Value → Result (Option Posture)
last_posture [] = ok none
last_posture (row ∷ rows) = orelse (last_posture rows)
  where
    orelse : Result (Option Posture) → Result (Option Posture)
    orelse (ok (some p)) = ok (some p)
    orelse (ok none) = posture_of_row row
    orelse (err e) = err e

-- `sum(1 for row in rows if row.get("decision") == "deny")`
unfoldable pub denials_in : List Value → Result ℕ
denials_in [] = ok 0
denials_in (row ∷ rows) = do
  fs ← as_dict row
  n ← denials_in rows
  ok ((if is_text "deny" (get_field "decision" fs) then 1 else 0) + n)

-- `ReplayEngine.recover_posture`
unfoldable pub recover_posture : List Line → Result Posture
recover_posture decisions = do
  rows ← read_all decisions
  n ← denials_in rows
  ok (posture_for_denials n)

-- `_restored_posture`
unfoldable pub restored_posture : List Line → List Line → Result Posture
restored_posture posture_history decisions = do
  rows ← read_plain posture_history
  found ← last_posture rows
  elim found [ some p ↦ ok p | none ↦ recover_posture decisions ]

-- `_restore_posture`: the configured posture is a floor.
unfoldable pub restore_posture : Posture → List Line → List Line → Result Posture
unfolding restored_posture
restore_posture configured posture_history decisions = do
  p ← restored_posture posture_history decisions
  ok (at_least_posture p configured)
