-- ===== src/Replay.antt =====
-- `ReplayEngine` of src/rif_runtime/replay.py: decisions and their graph, from the rows of the log.
pub mod Logged
use mandare.Prelude.{
  ℕ, String, Option, none, some, List, [], ◌∷◌, Result, ok, err, key_error, value_error, ◌>>=◌,
}
use mandare.Values.{Value, text, Fields, get_field, as_dict, Host}
use mandare.Schemas.{Decision, Posture, to_decision, to_posture, PolicyDecision}
use mandare.Graph.{MultiDiGraph, record_edge}

-- `row[key]`
unfoldable pub item : String → Fields → Result Value
item key fs = elim (get_field key fs) [ none ↦ err key_error | some v ↦ ok v ]

-- A value for a text field of a record.
unfoldable pub as_text : Value → Result String
as_text (text s) = ok s
as_text _ = err value_error

-- `Decision(value)`, `Posture(value)`
unfoldable pub as_member {ℓ} : {A : Type ℓ} → (String → Option A) → Value → Result A
as_member read (text s) = elim (read s) [ none ↦ err value_error | some a ↦ ok a ]
as_member read _ = err value_error

-- `_decision_from_row` at the time `now`: the arguments in their order, then the check of the texts.
unfoldable pub decision_from_row : ℕ → Fields → Result PolicyDecision
unfolding item as_text as_member
decision_from_row now row = do
  decision_item ← item "decision" row
  decision ← as_member to_decision decision_item
  actor_item ← item "actor" row
  action_item ← item "action" row
  target_item ← item "target" row
  environment_item ← item "environment" row
  posture_item ← item "posture" row
  posture ← as_member to_posture posture_item
  reason_item ← item "reason" row
  rule_item ← item "matched_rule" row
  actor ← as_text actor_item
  action ← as_text action_item
  target ← as_text target_item
  environment ← as_text environment_item
  reason ← as_text reason_item
  rule ← as_text rule_item
  ok (record {
    decision = decision;
    actor = actor;
    action = action;
    target = target;
    environment = environment;
    posture = posture;
    reason = reason;
    matched_rule = rule;
    timestamp = now;
  })

module _ (host : Host) (nx : MultiDiGraph) (now : ℕ) where
  unfoldable pub replay_onto : nx.Graph → List Value → Result nx.Graph
  replay_onto graph [] = ok graph
  replay_onto graph (row ∷ rows) = do
    fs ← as_dict row
    decision ← decision_from_row now fs
    replay_onto (record_edge host nx decision graph) rows

  -- `replay_graph`
  unfoldable pub replay_graph : List Value → Result nx.Graph
  unfolding replay_onto
  replay_graph rows = replay_onto nx.empty rows
