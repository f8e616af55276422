-- ===== src/Runtime/Durable.antt =====
-- What a new process of src/rif_runtime/runtime.py makes of the posture that the last one logged.
use mandare.Prelude.{◌≡◌, refl, true, some, List, [], ◌∷◌, ◌++◌, ok, >>=-eq-ok, ok_injective}
use mandare.Schemas.{Posture, to_posture-posture_value}
use mandare.Values.{Host, Value, dict, get_field}
use mandare.Graph.{MultiDiGraph}
use mandare.Governance.Posture.{at_least_posture}
use mandare.Storage.{Line, blank, damaged, row, jsonable, append_plain, read_plain}
use mandare.Runtime.State.{Runtime}
use mandare.Runtime.{transition, differs, set_posture}
use mandare.Runtime.Restore.{posture_of_row, last_posture, restore_posture}

read_plain-concat :
    (lines : List Line) (vs : List Value) (v : Value)
    → read_plain lines ≡ ok vs
    → read_plain (lines ++ row v ∷ []) ≡ ok (vs ++ v ∷ [])
unfolding read_plain
read_plain-concat [] vs v e = rw (← ok_injective e) refl
read_plain-concat (blank ∷ ls) vs v e = read_plain-concat ls vs v e
read_plain-concat (damaged ∷ ls) vs v e = cc
read_plain-concat (row w ∷ ls) vs v e =
    let (ws, read, same) = >>=-eq-ok (read_plain ls) (λ ws. ok (w ∷ ws)) e in
    rw (read_plain-concat ls ws v read, ← ok_injective same) refl

last_posture-concat :
    (rows : List Value) (v : Value) (p : Posture)
    → posture_of_row v ≡ ok (some p)
    → last_posture (rows ++ v ∷ []) ≡ ok (some p)
unfolding last_posture
last_posture-concat [] v p e = e
last_posture-concat (w ∷ ws) v p e = rw (last_posture-concat ws v p e) refl

module _ (host : Host) (nx : MultiDiGraph) where
  posture_of_row-transition :
      (old new : Posture)
      → posture_of_row (jsonable host (dict (transition old new))) ≡ ok (some new)
  unfolding posture_of_row jsonable get_field
  posture_of_row-transition old new = rw (to_posture-posture_value new) refl

  -- After `set_posture` has changed the posture, a process that starts with the same files, which can
  -- be read, starts in the posture that was set, or in the configured one where that is more
  -- restrictive.
  pub restore_posture-set_posture :
      (posture configured : Posture) (s : Runtime nx.Graph) (rows : List Value)
      → read_plain s.posture_history ≡ ok rows
      → differs s.posture posture ≡ true
      → restore_posture configured
          ((set_posture host nx posture s).1).posture_history
          ((set_posture host nx posture s).1).decisions
        ≡ ok (at_least_posture posture configured)
  unfolding set_posture restore_posture append_plain
  restore_posture-set_posture posture configured s rows read moved =
      let v = jsonable host (dict (transition s.posture posture)) in
      rw
        (
          moved,
          read_plain-concat s.posture_history rows v read,
          last_posture-concat rows v posture (posture_of_row-transition s.posture posture),
        )
        refl
