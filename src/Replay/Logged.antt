-- ===== src/Replay/Logged.antt =====
-- What src/rif_runtime/replay.py reads back from the rows that src/rif_runtime/runtime.py wrote.
use mandare.Prelude.{
  ℕ, ◌+◌, String, ◌≡◌, refl, sym, ◌∙◌, arith, List, [], ◌∷◌, ◌++◌, length, ok, ok_injective,
  >>=-eq-ok, ◌>>=◌, false,
}
use mandare.Values.{Host, Value, text, dict, Fields, end, field, set_field, as_dict, get_field}
use mandare.Values.Normal.{normalize_fields, normalize_for_json}
use mandare.Schemas.{
  Decision, Posture, to_decision, to_posture, PolicyDecision, decision_value, posture_value,
  to_decision-decision_value, to_posture-posture_value,
}
use mandare.Audit.{AuditRecord}
use mandare.Storage.{Line, row, breaks, read_line, read_all}
use mandare.Storage.Chain.{chain_key, envelope, append_chained}
use mandare.Storage.Chain.Append.{append_chained-Appended, read_all-concat}
use mandare.Graph.{MultiDiGraph, record_edge, edges-record_edge}
use mandare.Runtime.{model_dump}
use mandare.Replay.{decision_from_row, replay_onto, replay_graph, item, as_text, as_member}

module _ (host : Host) where
  -- The fields of a decision, as they are written.
  abbrev pub dumped : PolicyDecision → Fields
  dumped d = field "decision" (text (decision_value d.decision)) (
      field "actor" (text d.actor) (
        field "action" (text d.action) (
          field "target" (text d.target) (
            field "environment" (text d.environment) (
              field "posture" (text (posture_value d.posture)) (
                field "reason" (text d.reason) (
                  field "matched_rule" (text d.matched_rule)
                    (field "timestamp" (text (host.isoformat d.timestamp)) end))))))))

  normalize_fields-model_dump :
      (d : PolicyDecision) → normalize_fields host (model_dump d) ≡ ok (dumped d)
  unfolding normalize_for_json
  normalize_fields-model_dump d = refl

  as_member-decision_value : (x : Decision) → as_member to_decision (text (decision_value x)) ≡ ok x
  unfolding as_member
  as_member-decision_value x = rw (to_decision-decision_value x, as_member) refl

  as_member-posture_value : (p : Posture) → as_member to_posture (text (posture_value p)) ≡ ok p
  unfolding as_member
  as_member-posture_value p = rw (to_posture-posture_value p, as_member) refl

  decision_from_row-dumped :
      (now : ℕ) (d : PolicyDecision) (entry : AuditRecord)
      → decision_from_row now (set_field chain_key (dict (envelope entry)) (dumped d))
        ≡ ok (record d { timestamp = now })
  unfolding decision_from_row set_field get_field item as_text
  decision_from_row-dumped now d entry =
      rw (as_member-decision_value d.decision, as_member-posture_value d.posture) refl

  module _ (nx : MultiDiGraph) (now : ℕ) where
    edges-replay_onto :
        (rows : List Value) (graph graph' : nx.Graph)
        → replay_onto host nx now graph rows ≡ ok graph'
        → nx.number_of_edges graph' ≡ nx.number_of_edges graph + length rows
    unfolding replay_onto
    edges-replay_onto [] graph graph' e = rw (← ok_injective e) (omega arith)
    edges-replay_onto (v ∷ vs) graph graph' e =
        let (fs, read, rest) =
          >>=-eq-ok (as_dict v)
            (λ fs. decision_from_row now fs >>= λ d.
              replay_onto host nx now (record_edge host nx d graph) vs)
            e in
        let (d, decided, more) =
          >>=-eq-ok (decision_from_row now fs)
            (λ d. replay_onto host nx now (record_edge host nx d graph) vs) rest in
        omega (
          arith,
          edges-replay_onto vs (record_edge host nx d graph) graph' more,
          edges-record_edge host nx d graph,
        )

    -- If a replay returns a graph, it has exactly one edge for each row of the log.
    edges-replay_graph :
        (rows : List Value) (graph : nx.Graph)
        → replay_graph host nx now rows ≡ ok graph
        → nx.number_of_edges graph ≡ length rows
    unfolding replay_graph
    edges-replay_graph rows graph e =
        omega (arith, edges-replay_onto rows nx.empty graph e, nx.edges-empty)

    -- The rows are replayed in their order.
    replay_onto-concat :
        (rows : List Value) (fs : Fields) (d : PolicyDecision) (graph graph' : nx.Graph)
        → replay_onto host nx now graph rows ≡ ok graph'
        → decision_from_row now fs ≡ ok d
        → replay_onto host nx now graph (rows ++ dict fs ∷ []) ≡ ok (record_edge host nx d graph')
    unfolding replay_onto as_dict
    replay_onto-concat [] fs d graph graph' e decides = rw (decides, ok_injective e) refl
    replay_onto-concat (v ∷ vs) fs d graph graph' e decides =
        let (gs, read, rest) =
          >>=-eq-ok (as_dict v)
            (λ gs. decision_from_row now gs >>= λ c.
              replay_onto host nx now (record_edge host nx c graph) vs)
            e in
        let (c, decided, more) =
          >>=-eq-ok (decision_from_row now gs)
            (λ c. replay_onto host nx now (record_edge host nx c graph) vs) rest in
        rw (read, decided)
          (replay_onto-concat vs fs d (record_edge host nx c graph) graph' more decides)

    -- A decision is appended to a log that can be read and replayed, and the new row has no text with a
    -- line separator. Then the log can still be read, with one more row at its end; that row is read
    -- back as the decision that was logged, but for its timestamp, which is the time of the replay; and
    -- a replay of the log gives the graph it gave before, with the edge of that decision recorded.
    pub replay_graph-append_chained :
        (event_id timestamp : String) (d : PolicyDecision) (lines lines' : List Line)
        (vs : List Value) (graph : nx.Graph)
        → append_chained host event_id timestamp (model_dump d) lines ≡ ok lines'
        → read_all lines ≡ ok vs
        → replay_graph host nx now vs ≡ ok graph
        → ((v : Value) → lines' ≡ lines ++ row v ∷ [] → breaks v ≡ false)
        → (fs : Fields) × (read_all lines' ≡ ok (vs ++ dict fs ∷ []))
          × (decision_from_row now fs ≡ ok (record d { timestamp = now }))
          × (replay_graph host nx now (vs ++ dict fs ∷ [])
              ≡ ok (record_edge host nx (record d { timestamp = now }) graph))
    unfolding replay_graph read_line
    replay_graph-append_chained event_id timestamp d lines lines' vs graph written read replays
          clean =
        let a =
          append_chained-Appended host event_id timestamp (model_dump d) lines lines' written in
        let same : dumped d ≡ a.payload =
          ok_injective (sym (normalize_fields-model_dump d) ∙ a.normal) in
        let fs = set_field chain_key (dict (envelope a.entry)) a.payload in
        let decides : decision_from_row now fs ≡ ok (record d { timestamp = now }) =
          rw (← same) (decision_from_row-dumped now d a.entry) in
        (
          fs,
          rw (← a.written) (
              read_all-concat lines vs (dict fs) read
              ∙ rw (clean (dict fs) (sym a.written), read_line)),
          decides,
          replay_onto-concat vs fs (record d { timestamp = now }) nx.empty graph replays decides,
        )
