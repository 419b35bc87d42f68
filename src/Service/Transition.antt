-- ===== src/Service/Transition.antt =====
-- Moving a decision along its lifecycle by a command, over the in-memory store.
use Prim.Native.String.{String}
use sulix_intelligence.Prelude.{
  I64, ◌<◌, ◌^◌, ◌≡◌, ◌≢◌, ◌⊎◌, inl, inr, is_empty, Bool-cases, if◌then◌else◌, refl, sym, ap, ◌∙◌,
  [], true, false, find, ◌>>=◌, ◌>>◌, return, some, ok, err, arith,
}
use sulix_intelligence.Ids.{decision_id}
use sulix_intelligence.Decision.Status.{
  DecisionStatus, proposed, approved, executing, completed, invalidated, can_transition_to,
  status_eq-other, status_eq_refl,
}
use sulix_intelligence.Decision.Types.{DecisionError, invalid_transition, missing_outcome}
use sulix_intelligence.Decision.Aggregate.{
  DecisionAggregate, Updated, drain_events, approve, execute, complete, invalidate,
  transition_with_event,
}
use sulix_intelligence.Decision.Ports.{OutcomeJson}
use sulix_intelligence.Store.DecisionRows.{Decision}
use sulix_intelligence.Store.Memory.{MemoryStore}
use sulix_intelligence.Store.Memory.Decisions.{has_id}
use sulix_intelligence.Infra.DecisionRepository.{from_store, row_of, status_from_d1}
use sulix_intelligence.Infra.MemoryPorts.{memory_repository, memory_facts}
use sulix_intelligence.Infra.SaveFind.{facts, save-eq, upserted, found-id}
use sulix_intelligence.Service.Decision.{
  approve_it, execute_it, complete_it, invalidate_it, DecisionLifecycleCommand, target,
  apply_command, transition, load, method,
}
use sulix_intelligence.Service.Outcome.{load-row}

-- The statuses from which a command may go to its target.
abbrev pub Allows : DecisionLifecycleCommand → DecisionStatus → Type 0
Allows approve_it status = status ≡ proposed
Allows execute_it status = status ≡ approved
Allows complete_it status = status ≡ executing
Allows (invalidate_it reason) status = (status ≡ proposed) ⊎ (status ≡ executing)

can_transition_to-Allows :
    (c : DecisionLifecycleCommand) (status : DecisionStatus)
    → ¬ Allows c status
    → can_transition_to status (target c) ≡ false
unfolding can_transition_to target
can_transition_to-Allows approve_it status h = ground arith
can_transition_to-Allows execute_it status h = ground arith
can_transition_to-Allows complete_it status h = ground arith
can_transition_to-Allows (invalidate_it reason) status h = ground arith

module _ {F : Type 0} where
  -- The command is not allowed from the status, or it completes a decision without an outcome.
  abbrev pub Bars : DecisionLifecycleCommand → DecisionAggregate F → Type 0
  Bars complete_it d = (¬ Allows complete_it d.status) ⊎ (d.observed_outcomes ≡ [])
  Bars c d = ¬ Allows c d.status

  -- The error of a barred command. The lack of an outcome comes before the status.
  abbrev pub refusal : DecisionLifecycleCommand → DecisionAggregate F → DecisionError F
  refusal approve_it d = invalid_transition d.status approved
  refusal execute_it d = invalid_transition d.status executing
  refusal complete_it d =
      if is_empty d.observed_outcomes
      then missing_outcome
      else invalid_transition d.status completed
  refusal (invalidate_it reason) d = invalid_transition d.status invalidated

  apply_command-Bars :
      (c : DecisionLifecycleCommand) (i : String) (now : I64) (d : DecisionAggregate F)
      → Bars c d
      → apply_command c i now d ≡ (err (refusal c d), d)
  unfolding apply_command approve execute complete invalidate transition_with_event target
  apply_command-Bars approve_it i now d h = rw (can_transition_to-Allows approve_it d.status h) refl
  apply_command-Bars execute_it i now d h = rw (can_transition_to-Allows execute_it d.status h) refl
  apply_command-Bars complete_it i now d (inr none_yet) = rw none_yet refl
  apply_command-Bars complete_it i now d (inl barred) =
      rw (can_transition_to-Allows complete_it d.status barred)
        (elim (Bool-cases (is_empty d.observed_outcomes)) [
          | inl without ↦ rw without refl
          | inr has ↦ rw has refl
        ])
  apply_command-Bars (invalidate_it reason) i now d h =
      rw (can_transition_to-Allows (invalidate_it reason) d.status h) refl

module _ {F : Type 0} (json : OutcomeJson) where
  -- A command whose target is the status of the found row already, for an id below 2 ^ 64, changes nothing
  -- and reports no transition.
  pub transition-again :
      (id : I64) (c : DecisionLifecycleCommand) (now : I64) (row : Decision F) (s : MemoryStore F)
      → id < 2 ^ 64
      → find (has_id id) s.decisions ≡ some row
      → status_from_d1 row.status ≡ target c
      → transition (memory_repository json) memory_facts id c now s ≡ (
        ok (record {
          decision_id = id;
          aggregate = from_store json row (facts row.id s);
          events = [];
          transitioned = false;
        }),
        s,
      )
  unfolding transition from_store
  transition-again id c now row s h found same =
      rw (load-row json id row s h found) (rw (same, status_eq_refl (target c)))

  transition-loaded :
      (id : I64) (c : DecisionLifecycleCommand) (now : I64) (s : MemoryStore F)
      (d : DecisionAggregate F) (u : Updated F)
      → load (memory_repository json) memory_facts (decision_id id) s ≡ (ok d, s)
      → d.status ≢ target c
      → apply_command c (decision_id id) now d ≡ u
      → transition (memory_repository json) memory_facts id c now s
        ≡ (do
          d' ← method u
          (memory_repository json).save d'
          return (record {
            decision_id = id;
            aggregate = (drain_events d').1;
            events = (drain_events d').0;
            transitioned = true;
          }))
            s
  unfolding transition
  transition-loaded id c now s d u loaded other e =
      rw (loaded) (rw (status_eq-other d.status (target c) other) (rw (e) refl))

  apply_command-id :
      (c : DecisionLifecycleCommand) (i : String) (now : I64) (d : DecisionAggregate F)
      → (apply_command c i now d).1.id ≡ d.id
  unfolding apply_command
  apply_command-id approve_it i now d = ground arith
  apply_command-id execute_it i now d = ground arith
  apply_command-id complete_it i now d = ground arith
  apply_command-id (invalidate_it reason) i now d = ground arith

  apply_command-status :
      (c : DecisionLifecycleCommand) (i : String) (now : I64) (d d' : DecisionAggregate F)
      → apply_command c i now d ≡ (ok tt, d')
      → d'.status ≡ target c
  unfolding apply_command target
  apply_command-status approve_it i now d d' e = ground arith
  apply_command-status execute_it i now d d' e = ground arith
  apply_command-status complete_it i now d d' e = ground arith
  apply_command-status (invalidate_it reason) i now d d' e = ground arith

  -- For an id below 2 ^ 64 with a row whose status is not the target already, a command that is not allowed from the
  -- status (approval from proposed, execution from approved, completion from executing, invalidation from proposed
  -- or executing), or the completion of a decision without an outcome, is an error, which names the missing outcome
  -- or the two statuses, and nothing is written.
  pub transition-refused :
      (id : I64) (c : DecisionLifecycleCommand) (now : I64) (row : Decision F) (s : MemoryStore F)
      → id < 2 ^ 64
      → find (has_id id) s.decisions ≡ some row
      → status_from_d1 row.status ≢ target c
      → Bars c (from_store json row (facts row.id s))
      → transition (memory_repository json) memory_facts id c now s
        ≡ (err (refusal c (from_store json row (facts row.id s))), s)
  unfolding from_store
  transition-refused id c now row s h found other barred =
      let d = from_store json row (facts row.id s) in
      transition-loaded id c now s d (err (refusal c d), d) (load-row json id row s h found) other
        (apply_command-Bars c (decision_id id) now d barred)

  -- A command that the aggregate of the found row accepts, for an id below 2 ^ 64 and a target that is not
  -- the status already: the decision has the target, its events are handed over, and its state is the row
  -- of the decision.
  pub transition-accepted :
      (id : I64) (c : DecisionLifecycleCommand) (now : I64) (row : Decision F) (s : MemoryStore F)
      (d : DecisionAggregate F)
      → id < 2 ^ 64
      → find (has_id id) s.decisions ≡ some row
      → status_from_d1 row.status ≢ target c
      → apply_command c (decision_id id) now (from_store json row (facts row.id s)) ≡ (ok tt, d)
      → (transition (memory_repository json) memory_facts id c now s ≡ (
        ok (record {
          decision_id = id;
          aggregate = record d { events = [] };
          events = d.events;
          transitioned = true;
        }),
        (upserted (row_of json d id) s).1,
      ))
        × (d.status ≡ target c)
  unfolding from_store drain_events
  transition-accepted id c now row s d h found other accepted =
      let loaded = from_store json row (facts row.id s) in
      let named : d.id ≡ decision_id id =
        ap (λ u. u.1.id) (sym accepted)
        ∙ apply_command-id c (decision_id id) now loaded
        ∙ ap decision_id (found-id json id s.decisions row found) in
      (
        transition-loaded id c now s loaded (ok tt, d) (load-row json id row s h found) other
              accepted
            ∙ rw (save-eq json d id s named h),
        apply_command-status c (decision_id id) now loaded d accepted,
      )
