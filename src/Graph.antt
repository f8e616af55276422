-- ===== src/Graph.antt =====
-- src/rif_runtime/graph/memory.py: decisions as edges from actors to targets. The multigraph is
-- networkx's, an interface; `type` is the attribute of a node.
use mandare.Prelude.{ℕ, ◌+◌, String, ◌≡◌}
use mandare.Schemas.{PolicyDecision, decision_value, posture_value}
use mandare.Values.{Host}

pub record Edge : Type 0 where
  pub from : String
  pub to : String
  pub decision : String
  pub rule : String
  pub environment : String
  pub posture : String
  pub timestamp : String

-- `networkx.MultiDiGraph`, and what is relied on: an edge is always new, a node may be there already.
pub record MultiDiGraph : Type 1 where
  pub Graph : Type 0
  pub empty : Graph
  pub add_node : String → String → Graph → Graph
  pub add_edge : Edge → Graph → Graph
  pub number_of_nodes : Graph → ℕ
  pub number_of_edges : Graph → ℕ
  pub edges-empty : number_of_edges empty ≡ 0
  pub edges-add_node :
      (n t : String) (g : Graph) → number_of_edges (add_node n t g) ≡ number_of_edges g
  pub edges-add_edge :
      (e : Edge) (g : Graph) → number_of_edges (add_edge e g) ≡ number_of_edges g + 1

module _ (host : Host) (nx : MultiDiGraph) where
  abbrev pub edge_of : PolicyDecision → Edge
  edge_of d = record {
    from = d.actor;
    to = d.target;
    decision = decision_value d.decision;
    rule = d.matched_rule;
    environment = d.environment;
    posture = posture_value d.posture;
    timestamp = host.isoformat d.timestamp;
  }

  -- `GovernanceGraph.record_decision`
  unfoldable pub record_edge : PolicyDecision → nx.Graph → nx.Graph
  record_edge d g =
      nx.add_edge (edge_of d) (nx.add_node d.target "target" (nx.add_node d.actor "actor" g))

  -- Each recorded decision is one more edge.
  pub edges-record_edge :
      (d : PolicyDecision) (g : nx.Graph)
      → nx.number_of_edges (record_edge d g) ≡ nx.number_of_edges g + 1
  unfolding record_edge
  edges-record_edge d g = simp (nx.edges-add_edge, nx.edges-add_node)
