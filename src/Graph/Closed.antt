-- ===== src/Graph/Closed.antt =====
-- crates/application/src/graph.rs, `build_decision_graph`: its edges join nodes that it has.
use Prim.Native.String.{String}
use sulix_intelligence.Prelude.{
  ℕ, I64, ◌≡◌, refl, List, [], ◌∷◌, ◌++◌, All, All-append, map, Has, inl, inr, none, Option-cases,
  get_or, get, ok, HashMap, ◌==◌,
}
use sulix_intelligence.Ids.{decision_id, signal_id, outcome_id}
use sulix_intelligence.Store.DecisionRows.{Decision, OutcomeEvent}
use sulix_intelligence.Graph.{
  GraphNode, GraphEdge, GraphResponse, GraphStore, Pushed, decision_node, signal_node, outcome_node,
  influence_edge, outcome_edge, push_decision, push_decisions, push_outcomes, push_all_outcomes,
  decision_graph, read_outcomes, build_decision_graph, empty,
}

module _ {F : Type 0} where
  -- A node has the id.
  abbrev pub HasNode : String → List (GraphNode F) → Type 0
  HasNode id nodes = Has id (map (λ n. n.id) nodes)

  -- Both ends of the edge are nodes.
  abbrev pub IsJoined : List (GraphNode F) → GraphEdge → Type 0
  IsJoined nodes e = HasNode e.source nodes × HasNode e.target nodes

  abbrev pub IsClosed : Pushed F → Type 0
  IsClosed (nodes, edges) = All (IsJoined nodes) edges

  HasNode-left : (id : String) (xs ys : List (GraphNode F)) → HasNode id xs → HasNode id (xs ++ ys)
  HasNode-left id [] ys h = absurd h
  HasNode-left id (x ∷ xs) ys (inl e) = inl e
  HasNode-left id (x ∷ xs) ys (inr h) = inr (HasNode-left id xs ys h)

  HasNode-right : (id : String) (xs ys : List (GraphNode F)) → HasNode id ys → HasNode id (xs ++ ys)
  HasNode-right id [] ys h = h
  HasNode-right id (x ∷ xs) ys h = inr (HasNode-right id xs ys h)

  IsJoined-more :
      (xs ys : List (GraphNode F)) (es : List GraphEdge)
      → All (IsJoined xs) es
      → All (IsJoined (xs ++ ys)) es
  IsJoined-more xs ys [] h = tt
  IsJoined-more xs ys (e ∷ es) h = (
    (HasNode-left e.source xs ys h.0.0, HasNode-left e.target xs ys h.0.1),
    IsJoined-more xs ys es h.1,
  )

  -- New nodes, and an edge between nodes that are there then.
  push-IsClosed :
      (nodes new : List (GraphNode F)) (edges : List GraphEdge) (e : GraphEdge)
      → IsClosed (nodes, edges)
      → IsJoined (nodes ++ new) e
      → IsClosed (nodes ++ new, edges ++ e ∷ [])
  push-IsClosed nodes new edges e h k =
      All-append (IsJoined (nodes ++ new)) edges (e ∷ []) (IsJoined-more nodes new edges h) (k, tt)

  -- What the pushes keep: the edges are closed, and nodes stay.
  record Grows (g h : Pushed F) : Type 0 where
    keeps : (id : String) → HasNode id g.0 → HasNode id h.0
    closed : IsClosed g → IsClosed h

  push_decision-Grows :
      (d : Decision F) (nodes : List (GraphNode F)) (edges : List GraphEdge)
      → Grows (nodes, edges) (push_decision d (nodes, edges))
        × HasNode (decision_id d.id) (push_decision d (nodes, edges)).0
  push_decision-Grows d nodes edges = elim (Option-cases d.signal_thread_id) [
    | inl alone ↦
        rw (push_decision, alone)
          (
            record {
              keeps = λ id. HasNode-left id nodes (decision_node d ∷ []);
              closed = IsJoined-more nodes (decision_node d ∷ []) edges;
            },
            HasNode-right (decision_id d.id) nodes (decision_node d ∷ []) (inl refl),
          )
    | inr (sid, linked) ↦
        rw (push_decision, linked)
          (
            record {
              keeps = λ id. HasNode-left id nodes (decision_node d ∷ signal_node sid ∷ []);
              closed = λ h.
                  push-IsClosed nodes (decision_node d ∷ signal_node sid ∷ []) edges
                    (influence_edge sid d) h
                    (
                      HasNode-right (signal_id sid) nodes (decision_node d ∷ signal_node sid ∷ [])
                          (inr (inl refl)),
                      HasNode-right (decision_id d.id) nodes
                          (decision_node d ∷ signal_node sid ∷ []) (inl refl),
                    );
            },
            HasNode-right (decision_id d.id) nodes (decision_node d ∷ signal_node sid ∷ [])
                (inl refl),
          )
  ]

  push_decisions-Grows :
      (ds : List (Decision F)) (g : Pushed F)
      → Grows g (push_decisions ds g)
        × All (λ d. HasNode (decision_id d.id) (push_decisions ds g).0) ds
  push_decisions-Grows [] g = (record { keeps = λ id h. h; closed = λ h. h }, tt)
  push_decisions-Grows (d ∷ ds) g =
      let (one, there) = push_decision-Grows d g.0 g.1 in
      let (rest, all) = push_decisions-Grows ds (push_decision d g) in
      (
        record {
          keeps = λ id h. rest.keeps id (one.keeps id h);
          closed = λ h. rest.closed (one.closed h);
        },
        (rest.keeps (decision_id d.id) there, all),
      )

  push_outcomes-Grows :
      (d : Decision F) (os : List OutcomeEvent) (nodes : List (GraphNode F))
      (edges : List GraphEdge)
      → HasNode (decision_id d.id) nodes
      → Grows (nodes, edges) (push_outcomes d os (nodes, edges))
  push_outcomes-Grows d [] nodes edges there = record { keeps = λ id h. h; closed = λ h. h }
  push_outcomes-Grows d (o ∷ os) nodes edges there =
      let new = outcome_node o ∷ [] in
      let still = HasNode-left (decision_id d.id) nodes new there in
      let rest = push_outcomes-Grows d os (nodes ++ new) (edges ++ outcome_edge d o ∷ []) still in
      record {
        keeps = λ id h. rest.keeps id (HasNode-left id nodes new h);
        closed = λ h. rest.closed (
            push-IsClosed nodes new edges (outcome_edge d o) h
              (still, HasNode-right (outcome_id o.id) nodes new (inl refl)));
      }

  push_all_outcomes-IsClosed :
      (m : HashMap I64 (List OutcomeEvent)) (ds : List (Decision F)) (g : Pushed F)
      → All (λ d. HasNode (decision_id d.id) g.0) ds
      → IsClosed g
      → IsClosed (push_all_outcomes m ds g)
  push_all_outcomes-IsClosed m [] g there h = h
  push_all_outcomes-IsClosed m (d ∷ ds) g there h =
      let os = get_or (get ◌==◌ d.id m) [] in
      let one = push_outcomes-Grows d os g.0 g.1 there.0 in
      push_all_outcomes-IsClosed m ds (push_outcomes d os g) (still ds one there.1) (one.closed h)
    where
      still :
          {g' : Pushed F} (es : List (Decision F))
          → Grows g g'
          → All (λ d. HasNode (decision_id d.id) g.0) es
          → All (λ d. HasNode (decision_id d.id) g'.0) es
      still [] grows there = tt
      still (e ∷ es) grows there = (grows.keeps (decision_id e.id) there.0, still es grows there.1)

  decision_graph-IsClosed :
      (m : HashMap I64 (List OutcomeEvent)) (d : Decision F) (ds : List (Decision F))
      → IsClosed ((decision_graph m d ds).nodes, (decision_graph m d ds).edges)
  decision_graph-IsClosed m d ds =
      let (grows, all) = push_decisions-Grows (d ∷ ds) ([], []) in
      push_all_outcomes-IsClosed m (d ∷ ds) (push_decisions (d ∷ ds) ([], [])) all (grows.closed tt)

module _ {F St : Type 0} (store : GraphStore F St) where
  -- Where the decisions can be listed, whatever becomes of their outcomes, the graph is built, and both ends of
  -- each of its edges are nodes of it.
  pub build_decision_graph-IsClosed :
      (limit : ℕ) (ds : List (Decision F)) (s s1 : St)
      → store.list_decisions none limit s ≡ (ok ds, s1)
      → (r : GraphResponse F) × (t : St) × (build_decision_graph store limit s ≡ (ok r, t))
        × IsClosed (r.nodes, r.edges)
  unfolding build_decision_graph
  build_decision_graph-IsClosed limit [] s s1 listed =
      (empty "decision-graph", s1, rw (build_decision_graph, listed) refl, tt)
  build_decision_graph-IsClosed limit (d ∷ ds) s s1 listed =
      let (m, t) = read_outcomes store (d ∷ ds) [] s1 in
      (
        decision_graph m d ds,
        t,
        rw (build_decision_graph, listed) refl,
        decision_graph-IsClosed m d ds,
      )
