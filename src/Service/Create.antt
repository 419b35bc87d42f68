-- ===== src/Service/Create.antt =====
-- The create flow of the decision service: what a success means over any ports, and over the in-memory store.
use sulix_intelligence.Prelude.{
  ℕ, zero, suc, ◌+◌, I64, ◌<◌, ◌^◌, add_i64, ◌≡◌, ◌≢◌, refl, arith, List, [], ◌∷◌, ◌++◌, true,
  false, any, Float, in_unit, Result, ok, err, add_i64-one, subst, ap, ◌∙◌, eq_iff,
}
use sulix_intelligence.Ids.{decision_id}
use sulix_intelligence.Decision.Status.{approved, executing}
use sulix_intelligence.Decision.Types.{
  ProposeDecision, DecisionDomainEvent, DecisionError, conflict,
}
use sulix_intelligence.Decision.Aggregate.{DecisionAggregate}
use sulix_intelligence.Decision.Ports.{OutcomeJson}
use sulix_intelligence.Service.Decision.{Clock, CreatedDecision, create_loop, create, started}
use sulix_intelligence.Infra.DecisionRepository.{row_of}
use sulix_intelligence.Infra.MemoryPorts.{memory_repository, memory_facts}
use sulix_intelligence.Infra.SaveFind.{save_new-fresh, save_new-taken}
use sulix_intelligence.Store.Memory.{MemoryStore}
use sulix_intelligence.Store.Memory.Decisions.{has_id, next_decision_id}

module _ {F : Type 0} where
  -- The aggregate that the flow makes for an id, its events handed over.
  abbrev pub executing_decision : ProposeDecision F → I64 → Clock → DecisionAggregate F
  executing_decision cmd id clock = record {
    id = decision_id id;
    title = cmd.title;
    hypothesis = cmd.hypothesis;
    confidence = cmd.confidence;
    status = executing;
    rationale = cmd.rationale;
    decision_type = cmd.decision_type;
    priority = cmd.priority;
    signal_thread_id = cmd.signal_thread_id;
    actor_id = cmd.actor_id;
    expected_outcomes = cmd.expected_outcomes;
    observed_outcomes = [];
    created_at = clock 0;
    updated_at = clock 2;
    events = [];
  }

  abbrev pub creation_events : ProposeDecision F → I64 → List (DecisionDomainEvent F)
  creation_events cmd id =
      DecisionDomainEvent.proposed (decision_id id) cmd.title cmd.confidence cmd.decision_type
      ∷ DecisionDomainEvent.approved (decision_id id) "system"
      ∷ DecisionDomainEvent.status_changed (decision_id id) approved executing
      ∷ []

  -- What a command must satisfy to be proposed.
  abbrev pub IsProposable : ⦃fl : Float F⦄ → ProposeDecision F → Type 0
  IsProposable cmd = (cmd.title ≢ "") × (in_unit cmd.confidence ≡ true)

module _ {F St : Type 0} ⦃fl : Float F⦄ where
  started_lem :
      (cmd : ProposeDecision F) (clock : Clock) (s : St)
      → IsProposable cmd
      → started cmd clock s ≡ (
        ok (record (executing_decision cmd cmd.id clock) { events = creation_events cmd cmd.id }),
        s,
      )
  unfolding started
  started_lem cmd clock s p = ground (arith, eq_iff cmd.title "")

module _ {F : Type 0} ⦃fl : Float F⦄ (json : OutcomeJson) where
  create_loop-fresh :
      (attempts : ℕ) (cmd : ProposeDecision F) (clock : Clock) (s : MemoryStore F)
      → IsProposable cmd
      → s.next_decision_id < 2 ^ 64
      → any (has_id s.next_decision_id) s.decisions ≡ false
      → create_loop (memory_repository json) memory_facts (suc attempts) cmd clock s ≡ (
        ok (record {
          decision_id = s.next_decision_id;
          aggregate = executing_decision cmd s.next_decision_id clock;
          events = creation_events cmd s.next_decision_id;
        }),
        record s {
          next_decision_id = add_i64 s.next_decision_id 1;
          decisions =
              s.decisions
              ++ row_of json (executing_decision cmd s.next_decision_id clock) s.next_decision_id
                ∷ [];
        },
      )
  unfolding create_loop next_decision_id
  create_loop-fresh attempts cmd clock s p h free =
      let id = s.next_decision_id in
      let s' = record s { next_decision_id = add_i64 id 1 } in
      let d = record (executing_decision cmd id clock) { events = creation_events cmd id } in
      rw (started_lem (record cmd { id = id }) clock s' p)
        (rw (save_new-fresh json d id s' refl h free))

  -- With a proposable command and a next id below 2 ^ 64 that no row has, the flow succeeds at the first
  -- attempt: the row of the started decision is added, its three events are handed over, and the counter
  -- goes on.
  pub create-fresh :
      (cmd : ProposeDecision F) (clock : Clock) (s : MemoryStore F)
      → IsProposable cmd
      → s.next_decision_id < 2 ^ 64
      → any (has_id s.next_decision_id) s.decisions ≡ false
      → create (memory_repository json) memory_facts cmd clock s ≡ (
        ok (record {
          decision_id = s.next_decision_id;
          aggregate = executing_decision cmd s.next_decision_id clock;
          events = creation_events cmd s.next_decision_id;
        }),
        record s {
          next_decision_id = add_i64 s.next_decision_id 1;
          decisions =
              s.decisions
              ++ row_of json (executing_decision cmd s.next_decision_id clock) s.next_decision_id
                ∷ [];
        },
      )
  unfolding create
  create-fresh cmd clock s p h free = create_loop-fresh 3 cmd clock s p h free

  -- An attempt that meets a taken id writes no row, and the next attempt takes the next id.
  pub create_loop-taken :
      (attempts : ℕ) (cmd : ProposeDecision F) (clock : Clock) (s : MemoryStore F)
      → IsProposable cmd
      → s.next_decision_id < 2 ^ 64
      → any (has_id s.next_decision_id) s.decisions ≡ true
      → create_loop (memory_repository json) memory_facts (suc attempts) cmd clock s
        ≡ create_loop
            (memory_repository json)
            memory_facts
            attempts
            cmd
            (λ k. clock (k + 3))
            (record s { next_decision_id = add_i64 s.next_decision_id 1 })
  unfolding create_loop next_decision_id
  create_loop-taken attempts cmd clock s p h taken =
      let id = s.next_decision_id in
      let s' = record s { next_decision_id = add_i64 id 1 } in
      let d = record (executing_decision cmd id clock) { events = creation_events cmd id } in
      rw (started_lem (record cmd { id = id }) clock s' p)
        (rw (save_new-taken json d id s' refl h taken))

  -- The store with its counter of decisions moved.
  abbrev counted : MemoryStore F → I64 → MemoryStore F
  counted s k = record s { next_decision_id = k }

  create_loop-zero :
      (cmd : ProposeDecision F) (clock : Clock) (s : MemoryStore F)
      → create_loop (memory_repository json) memory_facts 0 cmd clock s
        ≡ (err (conflict "decision id allocation exhausted after repeated create collisions"), s)
  unfolding create_loop
  create_loop-zero cmd clock s = refl

  taken_at :
      (i j : I64) (s : MemoryStore F)
      → i ≡ j
      → any (has_id i) s.decisions ≡ true
      → any (has_id j) s.decisions ≡ true
  taken_at i j s e h = subst (λ k. any (has_id k) s.decisions ≡ true) e h

  gives_up :
      (n m : I64) (s : MemoryStore F)
      → n ≡ m
      → ◌≡◌ {A = Result (DecisionError F) (CreatedDecision F) × MemoryStore F}
          (
            err (conflict "decision id allocation exhausted after repeated create collisions"),
            counted s n,
          )
          (
            err (conflict "decision id allocation exhausted after repeated create collisions"),
            counted s m,
          )
  gives_up n m s e =
      ap
        (λ k. (
          err (conflict "decision id allocation exhausted after repeated create collisions"),
          counted s k,
        ))
        e

  exhausted :
      (attempts : ℕ) (n : I64) (cmd : ProposeDecision F) (clock : Clock) (s : MemoryStore F)
      → IsProposable cmd
      → n + attempts < 2 ^ 64
      → ((k : ℕ) → k < attempts → any (has_id (n + k)) s.decisions ≡ true)
      → create_loop (memory_repository json) memory_facts attempts cmd clock (counted s n) ≡ (
        err (conflict "decision id allocation exhausted after repeated create collisions"),
        counted s (n + attempts),
      )
  exhausted zero n cmd clock s p h taken =
      create_loop-zero cmd clock (counted s n) ∙ gives_up n (n + 0) s (omega arith)
  exhausted (suc m) n cmd clock s p h taken =
      create_loop-taken m cmd clock (counted s n) p (omega arith)
        (taken_at (n + 0) n s (omega arith) (taken 0 (omega arith)))
      ∙ ap
          (λ k.
            create_loop (memory_repository json) memory_facts m cmd (λ j. clock (j + 3))
              (counted s k))
          (add_i64-one n (omega arith))
      ∙ exhausted m (n + 1) cmd (λ j. clock (j + 3)) s p (omega arith)
          (λ k lt. taken_at (n + suc k) (n + 1 + k) s (omega arith) (taken (suc k) (omega arith)))
      ∙ gives_up (n + 1 + m) (n + suc m) s (omega arith)

  -- Where rows hold the next four ids, all below 2 ^ 64, the flow with a proposable command ends in a
  -- conflict: no row is written, and the counter has passed the four ids.
  pub create-exhausted :
      (cmd : ProposeDecision F) (clock : Clock) (s : MemoryStore F)
      → IsProposable cmd
      → s.next_decision_id + 4 < 2 ^ 64
      → ((k : ℕ) → k < 4 → any (has_id (s.next_decision_id + k)) s.decisions ≡ true)
      → create (memory_repository json) memory_facts cmd clock s ≡ (
        err (conflict "decision id allocation exhausted after repeated create collisions"),
        record s { next_decision_id = s.next_decision_id + 4 },
      )
  unfolding create
  create-exhausted cmd clock s p h taken = exhausted 4 s.next_decision_id cmd clock s p h taken
