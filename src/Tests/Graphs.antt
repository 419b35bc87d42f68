-- ===== src/Tests/Graphs.antt =====
-- The decision graph of two concrete rows.
use sulix_intelligence.Prelude.{ℕ, I64, ◌≡◌, refl, [], ◌∷◌, none, some, ok, Has, milli}
use sulix_intelligence.Ids.{signal_id}
use sulix_intelligence.Store.DecisionRows.{Decision, OutcomeEvent}
use sulix_intelligence.Graph.{
  GraphStore, GraphResponse, Pushed, build_decision_graph, expand_decision, influence_edge,
}
use sulix_intelligence.Graph.Closed.{HasNode, IsClosed, build_decision_graph-IsClosed}
use sulix_intelligence.Graph.Dangling.{expand_decision-dangling}
use sulix_intelligence.Tests.Data.{row}

abbrev linked : Decision ℕ
linked = record (row 1 "executing") { signal_thread_id = some 4 }

abbrev outcome_row : I64 → OutcomeEvent
outcome_row id = record {
  id = 9;
  decision_id = id;
  outcome_type = "growth";
  observation = "120";
  evidence_url = none;
  observed_at = 1;
  created_at = 1;
}

abbrev two_rows : GraphStore ℕ ℕ
two_rows = record {
  list_decisions = λ status limit s. (ok (linked ∷ row 2 "approved" ∷ []), s);
  list_outcomes = λ id s. (ok (outcome_row id ∷ []), s);
  find_decision = λ id s. (ok (some linked), s);
}

build_decision_graph-IsClosed_example :
    (r : GraphResponse ℕ) × (t : ℕ) × (build_decision_graph two_rows 10 0 ≡ (ok r, t))
    × IsClosed (r.nodes, r.edges)
build_decision_graph-IsClosed_example =
    build_decision_graph-IsClosed two_rows 10 (linked ∷ row 2 "approved" ∷ []) 0 0 refl

expand_decision-dangling_example :
    (g : Pushed ℕ) × (t : ℕ) × (expand_decision two_rows 1 (ok (some linked)) 0 ≡ (ok g, t))
    × Has (influence_edge 4 linked) g.1
    × ¬ HasNode (signal_id 4) g.0
expand_decision-dangling_example = expand_decision-dangling two_rows 1 4 linked 0 refl
