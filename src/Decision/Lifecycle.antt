-- ===== src/Decision/Lifecycle.antt =====
-- The invariants of the Decision aggregate over every history of calls.
use sulix_intelligence.Prelude.{
  ◌≤◌, I64, ◌≡◌, ◌≢◌, refl, sym, subst, ◌∙◌, ◌⊎◌, inl, inr, arith, true, false, List, [], ◌∷◌, ◌++◌,
  is_empty, Float, in_unit, is_ok, ok, eq_iff,
}
use sulix_intelligence.Decision.Status.{
  DecisionStatus, draft, can_transition_to, can_transition_to-rank, rank, IsTerminal,
}
use sulix_intelligence.Decision.Types.{ProposeDecision}
use sulix_intelligence.Decision.Aggregate.{DecisionAggregate, propose}
use sulix_intelligence.Decision.Calls.{Call, attaches, call, run}

is_empty-append_one {ℓ} : {A : Type ℓ} (xs : List A) (a : A) → is_empty (xs ++ a ∷ []) ≡ false
is_empty-append_one [] a = refl
is_empty-append_one (x ∷ xs) a = refl

module _ {F : Type 0} ⦃fl : Float F⦄ where
  -- The numbered invariants of the aggregate that speak of its state.
  pub record IsValid (d : DecisionAggregate F) : Type 0 where
    pub in_range : in_unit d.confidence ≡ true
    pub titled : d.title ≢ ""
    pub submitted : d.status ≢ draft
    pub evidenced : d.status ≡ DecisionStatus.completed → is_empty d.observed_outcomes ≡ false

  pub propose-IsValid :
      (cmd : ProposeDecision F) (now : I64) (d : DecisionAggregate F)
      → propose cmd now ≡ ok d
      → IsValid d
  unfolding propose
  propose-IsValid cmd now d h = ground (arith, eq_iff cmd.title "")

  pub call-IsValid :
      (c : Call) (now : I64) (d : DecisionAggregate F) → IsValid d → IsValid (call c now d).1
  unfolding call
  call-IsValid (attaches cmd) now d v = record {
    in_range = v.in_range;
    titled = v.titled;
    submitted = v.submitted;
    evidenced = λ _. is_empty-append_one d.observed_outcomes cmd.outcome;
  }
  call-IsValid c now d v = ground arith

  pub run-IsValid :
      (d : DecisionAggregate F) (cs : List (I64 × Call)) → IsValid d → IsValid (run d cs)
  unfolding run
  run-IsValid d [] v = v
  run-IsValid d ((now, c) ∷ cs) v = run-IsValid (call c now d).1 cs (call-IsValid c now d v)

  -- Whatever is called on a decision that was proposed, it keeps the invariants of the aggregate: a
  -- confidence in [0, 1], a title, a status that is not that of a draft, and an outcome if it is
  -- completed.
  pub propose-run-IsValid :
      (cmd : ProposeDecision F) (now : I64) (d : DecisionAggregate F) (cs : List (I64 × Call))
      → propose cmd now ≡ ok d
      → IsValid (run d cs)
  propose-run-IsValid cmd now d cs h = run-IsValid d cs (propose-IsValid cmd now d h)

module _ {F : Type 0} where
  -- A refused call leaves the aggregate as it was.
  pub call_refused :
      (c : Call) (now : I64) (d : DecisionAggregate F)
      → is_ok (call c now d).0 ≡ false
      → (call c now d).1 ≡ d
  unfolding call
  call_refused c now d h = ground arith

  -- A call moves the status along one edge of the graph, or leaves it.
  pub call-status :
      (c : Call) (now : I64) (d : DecisionAggregate F)
      → ((call c now d).1.status ≡ d.status)
        ⊎ (can_transition_to d.status (call c now d).1.status ≡ true)
  unfolding call can_transition_to
  call-status c now d = ground arith

  call-rank :
      (c : Call) (now : I64) (d : DecisionAggregate F)
      → rank d.status ≤ rank (call c now d).1.status
  call-rank c now d = elim (call-status c now d) [
    | inl same ↦ rw same (omega arith)
    | inr edge ↦ omega (arith, can_transition_to-rank d.status (call c now d).1.status edge)
  ]

  -- Over any history the status never goes back along the lifecycle.
  pub run-rank :
      (d : DecisionAggregate F) (cs : List (I64 × Call)) → rank d.status ≤ rank (run d cs).status
  unfolding run
  run-rank d [] = omega arith
  run-rank d ((now, c) ∷ cs) = omega (arith, call-rank c now d, run-rank (call c now d).1 cs)

  call-IsTerminal :
      (c : Call) (now : I64) (d : DecisionAggregate F)
      → IsTerminal d.status
      → (call c now d).1.status ≡ d.status
  unfolding call
  call-IsTerminal c now d h = ground arith

  -- A decision that is completed or invalidated keeps its status over any history.
  pub run-IsTerminal :
      (d : DecisionAggregate F) (cs : List (I64 × Call))
      → IsTerminal d.status
      → (run d cs).status ≡ d.status
  unfolding run
  run-IsTerminal d [] h = refl
  run-IsTerminal d ((now, c) ∷ cs) h =
      let e = call-IsTerminal c now d h in
      run-IsTerminal (call c now d).1 cs (subst IsTerminal (sym e) h) ∙ e
