-- ===== src/Runtime/Summaries.antt =====
-- The summaries of src/rif_runtime/runtime.py, of rows that were read, with `count_by` of src/rif_runtime/storage/jsonl.py
-- and `recover` of src/rif_runtime/replay.py.
pub mod Tallies
use mandare.Prelude.{
  ℕ, ◌+◌, String, Bool, true, false, Option, none, some, List, [], ◌∷◌, length, if◌then◌else◌,
  Result, ok, err, type_error, ◌>>=◌, ◌>>◌, Dict, raise_if,
}
use mandare.Values.{
  Value, null, bool, number, text, datetime, uuid, bytes, seq, set, dict, opaque, Fields, get_field,
  as_dict, Host,
}
use mandare.Schemas.{Posture, posture_value, PolicyDecision}
use mandare.Graph.{MultiDiGraph}
use mandare.Governance.Posture.{posture_for_denials}
use mandare.Governance.Telemetry.{denial_count}
use mandare.Storage.{Line, read_all, read_plain}
use mandare.Storage.Chain.{ChainVerification, verify}
use mandare.Replay.{replay_graph}
use mandare.Runtime.Restore.{denials_in}
use mandare.Runtime.State.{Runtime}

-- `hash(value)` works: a dict, a list or a set is no key.
unfoldable pub hashable : Value → Bool
hashable (dict fs) = false
hashable (seq xs) = false
hashable (set xs) = false
hashable _ = true

-- `row.get(field, "unknown")`
abbrev pub get_or_unknown : String → Fields → Value
get_or_unknown key fs = elim (get_field key fs) [ none ↦ text "unknown" | some v ↦ v ]

abbrev pub Tally : Type 0
Tally = List (Value × ℕ)

-- Python's `==` on two keys is the parameter `same_key`.
module _ (same_key : Value → Value → Bool) where
  -- `out[key] = out.get(key, 0) + 1`
  unfoldable pub bump : Value → Tally → Tally
  bump key [] = (key, 1) ∷ []
  bump key ((k, n) ∷ out) = if same_key k key then (k, n + 1) ∷ out else (k, n) ∷ bump key out

  unfoldable pub count_onto : String → List Value → Tally → Result Tally
  unfolding bump
  count_onto key [] out = ok out
  count_onto key (row ∷ rows) out = do
    fs ← as_dict row
    raise_if (if hashable (get_or_unknown key fs) then false else true) type_error
    count_onto key rows (bump (get_or_unknown key fs) out)

  -- `count_by`, over rows that were read
  unfoldable pub count_by : String → List Value → Result Tally
  unfolding count_onto
  count_by key rows = count_onto key rows []

pub record GraphSummary : Type 0 where
  pub nodes : ℕ
  pub edges : ℕ

pub record TelemetrySummary : Type 0 where
  pub recent_denials_60m : ℕ
  pub event_count : ℕ

pub record PersistedSummary : Type 0 where
  pub decisions_total : ℕ
  pub posture_transitions_total : ℕ
  pub decisions_by_result : Tally
  pub decisions_by_rule : Tally

pub record AuditSummary : Type 0 where
  pub environment : String
  pub posture : Posture
  pub graph : GraphSummary
  pub telemetry : TelemetrySummary
  pub persisted : PersistedSummary
  pub decision_chain : ChainVerification

pub record RecoveredState : Type 0 where
  pub historical_decisions : ℕ
  pub historical_denials : ℕ
  pub graph_nodes : ℕ
  pub graph_edges : ℕ
  pub last_posture : Posture

module _ (host : Host) (nx : MultiDiGraph) where
  -- `GovernanceGraph.summary`
  abbrev pub summary : nx.Graph → GraphSummary
  summary g = record { nodes = nx.number_of_nodes g; edges = nx.number_of_edges g }

  -- `ReplayEngine.recover`, of the lines of the log; the replayed edges carry the time `now`.
  unfoldable pub recover : ℕ → List Line → Result RecoveredState
  recover now lines = do
    rows ← read_all lines
    graph ← replay_graph host nx now rows
    denials ← denials_in rows
    ok (record {
      historical_decisions = length rows;
      historical_denials = denials;
      graph_nodes = (summary graph).nodes;
      graph_edges = (summary graph).edges;
      last_posture = posture_for_denials denials;
    })

  abbrev pub graph_summary : Runtime nx.Graph → GraphSummary
  graph_summary s = summary s.graph

  abbrev pub telemetry_summary : ℕ → Runtime nx.Graph → TelemetrySummary
  telemetry_summary now s = record {
    recent_denials_60m = denial_count now 60 s.telemetry;
    event_count = length s.telemetry.events;
  }

  module _ (same_key : Value → Value → Bool) where
    -- The body of `persisted_summary`, of rows that were read
    unfoldable pub summarise : List Value → Runtime nx.Graph → Result PersistedSummary
    unfolding count_by
    summarise rows s = do
      transitions ← read_plain s.posture_history
      by_result ← count_by same_key "decision" rows
      by_rule ← count_by same_key "matched_rule" rows
      ok (record {
        decisions_total = length rows;
        posture_transitions_total = length transitions;
        decisions_by_result = by_result;
        decisions_by_rule = by_rule;
      })
