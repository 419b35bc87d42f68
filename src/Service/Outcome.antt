-- ===== src/Service/Outcome.antt =====
-- Recording an outcome and moving a decision along its lifecycle, over the in-memory store.
use sulix_intelligence.Prelude.{
  ◌+◌, ◌≢◌, I64, ◌<◌, ◌^◌, add_i64, ◌≡◌, refl, ap, List, [], ◌∷◌, ◌++◌, length, length-append,
  is_empty, true, false, find, none, some, ok, err, get_or,
}
use sulix_intelligence.Ids.{decision_id}
use sulix_intelligence.Decision.Status.{executing, completed, status_eq-other, status_eq_refl}
use sulix_intelligence.Decision.Types.{DecisionDomainEvent, not_found}
use sulix_intelligence.Decision.Aggregate.{DecisionAggregate}
use sulix_intelligence.Decision.Ports.{OutcomeJson}
use sulix_intelligence.Store.DecisionRows.{Decision, OutcomeEvent, NewOutcomeEvent}
use sulix_intelligence.Store.Memory.{MemoryStore}
use sulix_intelligence.Store.Memory.Decisions.{has_id, stamp, save_outcome}
use sulix_intelligence.Infra.DecisionRepository.{from_store, row_of, status_from_d1}
use sulix_intelligence.Infra.MemoryPorts.{memory_repository, memory_facts}
use sulix_intelligence.Infra.SaveFind.{facts, find-row, find-missing, save-eq, upserted, found-id}
use sulix_intelligence.Service.Decision.{Clock, observed_outcome, load, record_outcome}

-- The fact row that an outcome leaves.
abbrev pub fact_row : I64 → NewOutcomeEvent → OutcomeEvent
fact_row id e = record {
  id = id;
  decision_id = e.decision_id;
  outcome_type = e.outcome_type;
  observation = e.observation;
  evidence_url = e.evidence_url;
  observed_at = get_or e.observed_at stamp;
  created_at = stamp;
}

abbrev pub with_fact : {F : Type 0} → NewOutcomeEvent → MemoryStore F → MemoryStore F
with_fact e s = record s {
  next_outcome_id = add_i64 s.next_outcome_id 1;
  outcomes = s.outcomes ++ fact_row s.next_outcome_id e ∷ [];
}

module _ {F : Type 0} where
  -- The aggregate that an outcome completes, its events handed over, and those events.
  abbrev pub completed_by : NewOutcomeEvent → Clock → DecisionAggregate F → DecisionAggregate F
  completed_by e clock d = record d {
    status = completed;
    observed_outcomes = d.observed_outcomes ++ observed_outcome e (clock 0) ∷ [];
    updated_at = clock 2;
  }

  abbrev pub completion_events :
      NewOutcomeEvent → DecisionAggregate F → List (DecisionDomainEvent F)
  completion_events e d =
      DecisionDomainEvent.outcome_attached d.id e.outcome_type "inconclusive"
      ∷ DecisionDomainEvent.completed d.id (length d.observed_outcomes + 1)
      ∷ []

is_empty-append : {A : Type 0} → (xs : List A) (x : A) → is_empty (xs ++ x ∷ []) ≡ false
is_empty-append [] x = refl
is_empty-append (y ∷ xs) x = refl

module _ {F : Type 0} (json : OutcomeJson) where
  pub load-row :
      (id : I64) (row : Decision F) (s : MemoryStore F)
      → id < 2 ^ 64
      → find (has_id id) s.decisions ≡ some row
      → load (memory_repository json) memory_facts (decision_id id) s
        ≡ (ok (from_store json row (facts row.id s)), s)
  unfolding load
  load-row id row s h e = rw (find-row json id row s h e)

  pub load-missing :
      (id : I64) (s : MemoryStore F)
      → id < 2 ^ 64
      → find (has_id id) s.decisions ≡ none
      → load {F = F} (memory_repository json) memory_facts (decision_id id) s
        ≡ (err (not_found (decision_id id)), s)
  unfolding load
  load-missing id s h e = rw (find-missing json id s h e)

  record_outcome-loaded_other :
      (e : NewOutcomeEvent) (d : DecisionAggregate F) (clock : Clock) (s : MemoryStore F)
      → load (memory_repository json) memory_facts (decision_id e.decision_id) s ≡ (ok d, s)
      → d.status ≢ executing
      → record_outcome (memory_repository json) memory_facts e clock s ≡ (
        ok (record {
          outcome_id = s.next_outcome_id;
          decision_id = e.decision_id;
          aggregate = d;
          completed = false;
          events = [];
        }),
        with_fact e s,
      )
  unfolding record_outcome save_outcome
  record_outcome-loaded_other e d clock s h other = rw (h, status_eq-other d.status executing other)

  record_outcome-loaded :
      (e : NewOutcomeEvent) (d : DecisionAggregate F) (clock : Clock) (s : MemoryStore F)
      → load (memory_repository json) memory_facts (decision_id e.decision_id) s ≡ (ok d, s)
      → d.status ≡ executing
      → d.events ≡ []
      → d.id ≡ decision_id e.decision_id
      → e.decision_id < 2 ^ 64
      → record_outcome (memory_repository json) memory_facts e clock s ≡ (
        ok (record {
          outcome_id = s.next_outcome_id;
          decision_id = e.decision_id;
          aggregate = completed_by e clock d;
          completed = true;
          events = completion_events e d;
        }),
        (upserted (row_of json (completed_by e clock d) e.decision_id) (with_fact e s)).1,
      )
  unfolding record_outcome save_outcome
  record_outcome-loaded e d clock s h running quiet named lt =
      let observed = observed_outcome e (clock 0) in
      let done : DecisionAggregate F = record (completed_by e clock d) {
        events = completion_events e d;
      } in
      rw (h, running, quiet, status_eq_refl executing)
        (rw
          (
            is_empty-append d.observed_outcomes observed,
            length-append d.observed_outcomes (observed ∷ []),
          )
          (rw (save-eq json done e.decision_id (with_fact e s) named lt)))

  -- An outcome for a decision whose row is found in another status than executing, with an id below 2 ^
  -- 64, leaves its fact row alone: no event, no completion, and every decision row as it was.
  pub record_outcome-other :
      (e : NewOutcomeEvent) (row : Decision F) (clock : Clock) (s : MemoryStore F)
      → e.decision_id < 2 ^ 64
      → find (has_id e.decision_id) s.decisions ≡ some row
      → status_from_d1 row.status ≢ executing
      → record_outcome (memory_repository json) memory_facts e clock s ≡ (
        ok (record {
          outcome_id = s.next_outcome_id;
          decision_id = e.decision_id;
          aggregate = from_store json row (facts row.id s);
          completed = false;
          events = [];
        }),
        with_fact e s,
      )
  unfolding from_store
  record_outcome-other e row clock s h found other =
      record_outcome-loaded_other e (from_store json row (facts row.id s)) clock s
        (load-row e.decision_id row s h found) other

  -- An outcome for a decision whose row is found and is executing, with an id below 2 ^ 64, leaves its
  -- fact row, completes the decision in its row, and hands over the two events, the count in the second
  -- one taking the new outcome in.
  pub record_outcome-executing :
      (e : NewOutcomeEvent) (row : Decision F) (clock : Clock) (s : MemoryStore F)
      → e.decision_id < 2 ^ 64
      → find (has_id e.decision_id) s.decisions ≡ some row
      → status_from_d1 row.status ≡ executing
      → let d = from_store json row (facts row.id s) in
        record_outcome (memory_repository json) memory_facts e clock s ≡ (
          ok (record {
            outcome_id = s.next_outcome_id;
            decision_id = e.decision_id;
            aggregate = completed_by e clock d;
            completed = true;
            events = completion_events e d;
          }),
          (upserted (row_of json (completed_by e clock d) e.decision_id) (with_fact e s)).1,
        )
  unfolding from_store
  record_outcome-executing e row clock s h found running =
      record_outcome-loaded e (from_store json row (facts row.id s)) clock s
        (load-row e.decision_id row s h found) running refl
        (ap decision_id (found-id json e.decision_id s.decisions row found)) h

  -- An outcome for a decision without a row, with an id below 2 ^ 64, is refused, and nothing is written.
  pub record_outcome-missing :
      (e : NewOutcomeEvent) (clock : Clock) (s : MemoryStore F)
      → e.decision_id < 2 ^ 64
      → find (has_id e.decision_id) s.decisions ≡ none
      → record_outcome (memory_repository json) memory_facts e clock s
        ≡ (err (not_found (decision_id e.decision_id)), s)
  unfolding record_outcome
  record_outcome-missing e clock s h found = rw (load-missing e.decision_id s h found)
