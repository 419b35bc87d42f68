-- ===== src/Graph/Dangling.antt =====
-- crates/application/src/graph.rs, `expand`: the node of the signal is missing.
use sulix_intelligence.Prelude.{
  I64, ◌≡◌, refl, sym, subst, arith, List, [], ◌∷◌, ◌++◌, All, All-append, Has, inl, inr, some,
  true, false, ok, starts_with, starts_with-append, starts_with-other,
}
use sulix_intelligence.Prelude.Decimal.{padded}
use sulix_intelligence.Ids.{domain_id, decision_id, signal_id, outcome_id}
use sulix_intelligence.Store.DecisionRows.{Decision, OutcomeEvent}
use sulix_intelligence.Graph.{
  GraphNode, GraphEdge, GraphStore, Pushed, decision_node, outcome_node, influence_edge,
  outcome_edge, push_outcomes, expand_decision, influence_edges, outcomes_or_none,
}
use sulix_intelligence.Graph.Closed.{HasNode}

signal_starts : (sid : I64) → starts_with (signal_id sid) "SIG-" ≡ true
unfolding signal_id domain_id
signal_starts sid = starts_with-append "SIG-" (padded 6 sid)

decision_starts : (id : I64) → starts_with (decision_id id) "SIG-" ≡ false
unfolding decision_id domain_id
decision_starts id = starts_with-other "D" "S" "EC-" (padded 6 id) "IG-" refl

outcome_starts : (id : I64) → starts_with (outcome_id id) "SIG-" ≡ false
unfolding outcome_id domain_id
outcome_starts id = starts_with-other "O" "S" "UT-" (padded 6 id) "IG-" refl

module _ {F : Type 0} where
  -- The node is not of a signal.
  abbrev IsOther : GraphNode F → Type 0
  IsOther n = starts_with n.id "SIG-" ≡ false

  push_outcomes-IsOther :
      (d : Decision F) (os : List OutcomeEvent) (nodes : List (GraphNode F))
      (edges : List GraphEdge)
      → All IsOther nodes
      → All IsOther (push_outcomes d os (nodes, edges)).0
  push_outcomes-IsOther d [] nodes edges h = h
  push_outcomes-IsOther d (o ∷ os) nodes edges h =
      push_outcomes-IsOther d os (nodes ++ outcome_node o ∷ []) (edges ++ outcome_edge d o ∷ [])
        (All-append IsOther nodes (outcome_node o ∷ []) h (outcome_starts o.id, tt))

  no_signal :
      (sid : I64) (nodes : List (GraphNode F)) → All IsOther nodes → ¬ HasNode (signal_id sid) nodes
  no_signal sid [] h k = k
  no_signal sid (n ∷ nodes) h (inl e) =
      absurd
        (ground (arith, signal_starts sid, subst (λ id. starts_with id "SIG-" ≡ false) (sym e) h.0))
  no_signal sid (n ∷ nodes) h (inr k) = no_signal sid nodes h.1 k

Has-last : {A : Type 0} → (a : A) (xs : List A) → Has a (xs ++ a ∷ [])
Has-last a [] = inl refl
Has-last a (x ∷ xs) = inr (Has-last a xs)

module _ {F St : Type 0} (store : GraphStore F St) where
  -- For a decision with a signal, the expansion has the edge from the signal to the decision, but no node with the
  -- id of the signal.
  pub expand_decision-dangling :
      (id sid : I64) (d : Decision F) (s : St)
      → d.signal_thread_id ≡ some sid
      → (g : Pushed F) × (t : St) × (expand_decision store id (ok (some d)) s ≡ (ok g, t))
        × Has (influence_edge sid d) g.1
        × ¬ HasNode (signal_id sid) g.0
  expand_decision-dangling id sid d s linked =
      let (r, t) = store.list_outcomes id s in
      let g = push_outcomes d (outcomes_or_none r) (decision_node d ∷ [], []) in
      (
        (g.0, g.1 ++ influence_edges d),
        t,
        refl,
        rw (influence_edges, linked) (Has-last (influence_edge sid d) g.1),
        no_signal sid g.0 (
            push_outcomes-IsOther d (outcomes_or_none r) (decision_node d ∷ []) []
              (decision_starts d.id, tt)),
      )
