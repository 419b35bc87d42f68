-- ===== src/Tests/Services.antt =====
-- The decision service and its repository over concrete stores.
use sulix_intelligence.Prelude.{
  ℕ, ◌≡◌, ◌≢◌, ◌+◌, ◌<◌, refl, arith, [], ◌∷◌, some, true, false, ok, err, milli, eq_iff, any,
}
use sulix_intelligence.Ids.{decision_id}
use sulix_intelligence.Decision.Status.{executing, approved, proposed}
use sulix_intelligence.Decision.Types.{conflict, invalid_transition}
use sulix_intelligence.Store.Memory.{MemoryStore, new}
use sulix_intelligence.Store.Memory.Decisions.{has_id}
use sulix_intelligence.Infra.DecisionRepository.{row_of, from_store, status_from_d1}
use sulix_intelligence.Infra.MemoryPorts.{memory_repository, memory_facts}
use sulix_intelligence.Infra.SaveFind.{facts, upserted, find-save}
use sulix_intelligence.Service.Decision.{
  create, record_outcome, transition, execute_it, approve_it, target, apply_command,
}
use sulix_intelligence.Service.Create.{
  IsProposable, executing_decision, creation_events, create-fresh, create-exhausted,
}
use sulix_intelligence.Service.CreateFind.{find-create}
use sulix_intelligence.Service.Outcome.{
  completed_by, completion_events, with_fact, record_outcome-executing, record_outcome-other,
}
use sulix_intelligence.Service.Transition.{transition-refused, transition-accepted}
use sulix_intelligence.Tests.Data.{
  one_list, ship_it, ticks, row, empty_store, store_with, growth, aggregate,
}

proposable : IsProposable ship_it
proposable = (ground (arith, eq_iff "Ship it" ""), refl)

create-fresh_example :
    create (memory_repository one_list) memory_facts ship_it ticks empty_store ≡ (
      ok (record {
        decision_id = 1;
        aggregate = executing_decision ship_it 1 ticks;
        events = creation_events ship_it 1;
      }),
      record empty_store {
        next_decision_id = 2;
        decisions = row_of one_list (executing_decision ship_it 1 ticks) 1 ∷ [];
      },
    )
unfolding new
create-fresh_example = create-fresh one_list ship_it ticks empty_store proposable (omega arith) refl

-- Four rows stand at the next four ids.
abbrev crowded : MemoryStore ℕ
crowded = store_with (row 1 "draft" ∷ row 2 "draft" ∷ row 3 "draft" ∷ row 4 "draft" ∷ [])

crowded-taken : (k : ℕ) → k < 4 → any (has_id (1 + k)) crowded.decisions ≡ true
crowded-taken k h = ground arith

create-exhausted_example :
    create (memory_repository one_list) memory_facts ship_it ticks crowded ≡ (
      err (conflict "decision id allocation exhausted after repeated create collisions"),
      record crowded { next_decision_id = 5 },
    )
create-exhausted_example =
    create-exhausted one_list ship_it ticks crowded proposable (omega arith) crowded-taken

abbrev active : MemoryStore ℕ
active = store_with (row 7 "active" ∷ [])

abbrev waiting : MemoryStore ℕ
waiting = store_with (row 7 "proposed" ∷ [])

proposed_not_executing : status_from_d1 (row 7 "proposed").status ≢ executing
unfolding status_from_d1
proposed_not_executing = ground arith

record_outcome-executing_example :
    let d = from_store one_list (row 7 "active") (facts 7 active) in
    record_outcome (memory_repository one_list) memory_facts growth ticks active ≡ (
      ok (record {
        outcome_id = 1;
        decision_id = 7;
        aggregate = completed_by growth ticks d;
        completed = true;
        events = completion_events growth d;
      }),
      (upserted (row_of one_list (completed_by growth ticks d) 7) (with_fact growth active)).1,
    )
unfolding new status_from_d1
record_outcome-executing_example =
    record_outcome-executing one_list growth (row 7 "active") ticks active (omega arith) refl refl

record_outcome-other_example :
    record_outcome (memory_repository one_list) memory_facts growth ticks waiting ≡ (
      ok (record {
        outcome_id = 1;
        decision_id = 7;
        aggregate = from_store one_list (row 7 "proposed") (facts 7 waiting);
        completed = false;
        events = [];
      }),
      with_fact growth waiting,
    )
unfolding new
record_outcome-other_example =
    record_outcome-other one_list growth (row 7 "proposed") ticks waiting (omega arith) refl
      proposed_not_executing

proposed_not_target : status_from_d1 (row 7 "proposed").status ≢ target execute_it
unfolding status_from_d1 target
proposed_not_target = ground arith

proposed_not_approved_status : ¬ (status_from_d1 (row 7 "proposed").status ≡ approved)
unfolding status_from_d1
proposed_not_approved_status = ground arith

transition-refused_example :
    transition (memory_repository one_list) memory_facts 7 execute_it 90 waiting
    ≡ (err (invalid_transition proposed executing), waiting)
unfolding from_store status_from_d1
transition-refused_example =
    transition-refused one_list 7 execute_it 90 (row 7 "proposed") waiting (omega arith) refl
      proposed_not_target proposed_not_approved_status

proposed_not_approved : status_from_d1 (row 7 "proposed").status ≢ target approve_it
unfolding status_from_d1 target
proposed_not_approved = ground arith

transition-accepted_example :
    let d =
      (apply_command approve_it
        (decision_id 7)
        90
        (from_store one_list (row 7 "proposed") (facts 7 waiting))).1 in
    (transition (memory_repository one_list) memory_facts 7 approve_it 90 waiting ≡ (
      ok (record {
        decision_id = 7;
        aggregate = record d { events = [] };
        events = d.events;
        transitioned = true;
      }),
      (upserted (row_of one_list d 7) waiting).1,
    ))
    × (d.status ≡ target approve_it)
unfolding apply_command from_store
transition-accepted_example =
    transition-accepted one_list 7 approve_it 90 (row 7 "proposed") waiting
      (apply_command approve_it (decision_id 7) 90
        (from_store one_list (row 7 "proposed") (facts 7 waiting))).1
      (omega arith) refl proposed_not_approved refl

find-save_example :
    let s' = ((memory_repository one_list).save (aggregate approved) waiting).1 in
    (memory_repository one_list).find (decision_id 7) s' ≡ (
      ok (
          some (record (aggregate approved) {
            created_at = 1;
            observed_outcomes = facts 7 waiting;
            events = [];
          })),
      s',
    )
find-save_example = find-save one_list (aggregate approved) 7 waiting refl refl (omega arith)

find-create_example :
    let s' = (create (memory_repository one_list) memory_facts ship_it ticks empty_store).1 in
    (memory_repository one_list).find (decision_id 1) s' ≡ (
      ok (
          some (record (executing_decision ship_it 1 ticks) {
            observed_outcomes = facts 1 empty_store;
          })),
      s',
    )
unfolding new
find-create_example =
    find-create one_list ship_it ticks empty_store proposable (omega arith) refl refl
