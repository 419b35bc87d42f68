-- ===== src/Graph.antt =====
-- crates/application/src/graph.rs: the decision graph for the frontend, over any store of decisions and outcomes.
pub mod Closed
pub mod Dangling
use Prim.Native.String.{String, ◌++◌ as text_append}
use sulix_intelligence.Prelude.{
  ℕ, I64, List, [], ◌∷◌, ◌++◌, Option, none, some, get_or, ok, err, Result, Mut, ◌>>=◌, return,
  HashMap, get, insert, ◌==◌, str_eq, split, if◌then◌else◌, map,
}
use sulix_intelligence.Prelude.Decimal.{padded, parse_i64}
use sulix_intelligence.Ids.{decision_id, signal_id, outcome_id}
use sulix_intelligence.Store.Error.{StoreError}
use sulix_intelligence.Store.DecisionRows.{Decision, OutcomeEvent}

pub data GraphNodeType : Type 0 where
  signal decision outcome reflection memory strategy claim : GraphNodeType

pub data GraphEdgeType : Type 0 where
  evidence_for influenced triggered resulted_in evaluated_by learned_from aligned_with :
      GraphEdgeType
  evidence_supports_claim claim_generates_signal : GraphEdgeType

pub record GraphRoot : Type 0 where
  pub id : String
  pub node_type : GraphNodeType

pub record GraphNodeData (F : Type 0) : Type 0 where
  pub confidence : Option F
  pub status : Option String
  pub source_count : Option ℕ
  pub article_count : Option ℕ
  pub url : Option String

pub record GraphNode (F : Type 0) : Type 0 where
  pub id : String
  pub entity_id : I64
  pub node_type : GraphNodeType
  pub title : String
  pub data_of : GraphNodeData F

pub record GraphEdge : Type 0 where
  pub source : String
  pub target : String
  pub edge_type : GraphEdgeType

pub record GraphResponse (F : Type 0) : Type 0 where
  pub projection : String
  pub root : GraphRoot
  pub nodes : List (GraphNode F)
  pub edges : List GraphEdge
  pub generated_at : I64

pub record ExpandResponse (F : Type 0) : Type 0 where
  pub nodes : List (GraphNode F)
  pub edges : List GraphEdge
  pub cursor : Option String

-- `GraphResponse::empty`
abbrev pub empty : {F : Type 0} → String → GraphResponse F
empty projection = record {
  projection = projection;
  root = record { id = ""; node_type = decision };
  nodes = [];
  edges = [];
  generated_at = 0;
}

-- The queries of the store.
pub record GraphStore (F St : Type 0) : Type 0 where
  pub list_decisions : Option String → ℕ → Mut St StoreError (List (Decision F))
  pub list_outcomes : I64 → Mut St StoreError (List OutcomeEvent)
  pub find_decision : I64 → Mut St StoreError (Option (Decision F))

module _ {F : Type 0} where
  abbrev pub decision_node : Decision F → GraphNode F
  decision_node d = record {
    id = decision_id d.id;
    entity_id = d.id;
    node_type = decision;
    title = d.title;
    data_of = record {
      confidence = some d.confidence;
      status = some d.status;
      source_count = none;
      article_count = none;
      url = some (text_append "/intelligence/decisions/" (padded 1 d.id));
    };
  }

  abbrev pub signal_node : I64 → GraphNode F
  signal_node sid = record {
    id = signal_id sid;
    entity_id = sid;
    node_type = signal;
    title = text_append "Signal #" (padded 1 sid);
    data_of = record {
      confidence = none;
      status = none;
      source_count = none;
      article_count = none;
      url = some (text_append "/intelligence/signals/" (padded 1 sid));
    };
  }

  abbrev pub outcome_node : OutcomeEvent → GraphNode F
  outcome_node o = record {
    id = outcome_id o.id;
    entity_id = o.id;
    node_type = outcome;
    title = o.outcome_type;
    data_of = record {
      confidence = none;
      status = some o.observation;
      source_count = none;
      article_count = none;
      url = none;
    };
  }

  abbrev pub influence_edge : I64 → Decision F → GraphEdge
  influence_edge sid d = record {
    source = signal_id sid;
    target = decision_id d.id;
    edge_type = influenced;
  }

  abbrev pub outcome_edge : Decision F → OutcomeEvent → GraphEdge
  outcome_edge d o = record {
    source = decision_id d.id;
    target = outcome_id o.id;
    edge_type = resulted_in;
  }

-- The nodes and edges pushed so far.
abbrev pub Pushed : Type 0 → Type 0
Pushed F = List (GraphNode F) × List GraphEdge

module _ {F : Type 0} where
  abbrev pub push_decision : Decision F → Pushed F → Pushed F
  push_decision d (nodes, edges) = elim d.signal_thread_id [
    | none ↦ (nodes ++ decision_node d ∷ [], edges)
    | some sid ↦
        (nodes ++ decision_node d ∷ signal_node sid ∷ [], edges ++ influence_edge sid d ∷ [])
  ]

  abbrev pub push_decisions : List (Decision F) → Pushed F → Pushed F
  push_decisions [] g = g
  push_decisions (d ∷ ds) g = push_decisions ds (push_decision d g)

  abbrev pub push_outcomes : Decision F → List OutcomeEvent → Pushed F → Pushed F
  push_outcomes d [] g = g
  push_outcomes d (o ∷ os) (nodes, edges) =
      push_outcomes d os (nodes ++ outcome_node o ∷ [], edges ++ outcome_edge d o ∷ [])

  -- The second loop, over the outcomes that were read.
  abbrev pub push_all_outcomes :
      HashMap I64 (List OutcomeEvent) → List (Decision F) → Pushed F → Pushed F
  push_all_outcomes outcome_map [] g = g
  push_all_outcomes outcome_map (d ∷ ds) g =
      push_all_outcomes outcome_map ds (push_outcomes d (get_or (get ◌==◌ d.id outcome_map) []) g)

  abbrev pub decision_graph :
      HashMap I64 (List OutcomeEvent) → Decision F → List (Decision F) → GraphResponse F
  decision_graph outcome_map d ds =
      let (nodes, edges) =
        push_all_outcomes outcome_map (d ∷ ds) (push_decisions (d ∷ ds) ([], [])) in
      record {
        projection = "decision-graph";
        root = record { id = decision_id d.id; node_type = decision };
        nodes = nodes;
        edges = edges;
        generated_at = 0;
      }

module _ {F : Type 0} where
  abbrev pub expanded : Pushed F → ExpandResponse F
  expanded (nodes, edges) = record { nodes = nodes; edges = edges; cursor = none }

  abbrev pub influence_edges : Decision F → List GraphEdge
  influence_edges d = elim d.signal_thread_id [ none ↦ [] | some sid ↦ influence_edge sid d ∷ [] ]

abbrev pub outcomes_or_none : Result StoreError (List OutcomeEvent) → List OutcomeEvent
outcomes_or_none (ok os) = os
outcomes_or_none (err e) = []

abbrev pub first_part : List String → String
first_part [] = ""
first_part (p ∷ ps) = p

abbrev pub entity_part : List String → I64
entity_part (p ∷ q ∷ ps) = get_or (parse_i64 q) 0
entity_part (p ∷ []) = 0
entity_part [] = 0

module _ {F St : Type 0} (store : GraphStore F St) where
  -- Outcomes that cannot be read are left out.
  abbrev pub read_outcomes :
      List (Decision F)
      → HashMap I64 (List OutcomeEvent)
      → St
      → HashMap I64 (List OutcomeEvent) × St
  read_outcomes [] m s = (m, s)
  read_outcomes (d ∷ ds) m s =
      let (r, s') = store.list_outcomes d.id s in
      read_outcomes ds (elim r [ ok outs ↦ insert ◌==◌ d.id outs m | err e ↦ m ]) s'

  abbrev pub graph_of : List (Decision F) → Mut St StoreError (GraphResponse F)
  graph_of [] s = (ok (empty "decision-graph"), s)
  graph_of (d ∷ ds) s =
      let (outcome_map, s') = read_outcomes (d ∷ ds) [] s in
      (ok (decision_graph outcome_map d ds), s')

  unfoldable pub build_decision_graph : ℕ → Mut St StoreError (GraphResponse F)
  unfolding decision_id signal_id outcome_id
  build_decision_graph limit = store.list_decisions none limit >>= graph_of

  -- The node of a decision, its outcomes, and the edge of its signal.
  abbrev pub expand_decision :
      I64 → Result StoreError (Option (Decision F)) → Mut St StoreError (Pushed F)
  expand_decision entity_id (ok (some d)) s =
      let (r, s') = store.list_outcomes entity_id s in
      let (nodes, edges) = push_outcomes d (outcomes_or_none r) (decision_node d ∷ [], []) in
      (ok (nodes, edges ++ influence_edges d), s')
  expand_decision entity_id (ok none) s = (ok ([], []), s)
  expand_decision entity_id (err e) s = (ok ([], []), s)

  unfoldable pub expand : String → Mut St StoreError (ExpandResponse F)
  unfolding parse_i64 decision_id signal_id outcome_id
  expand node_id s =
      let parts = split b'-' node_id in
      let entity_id = entity_part parts in
      if entity_id == 0
      then (ok (expanded ([], [])), s)
      else if str_eq (first_part parts) "DEC"
      then (let (r, s') = store.find_decision entity_id s in
          (expand_decision entity_id r >>= λ g. return (expanded g)) s')
      else (ok (expanded ([], [])), s)
