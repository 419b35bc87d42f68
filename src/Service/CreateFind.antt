-- ===== src/Service/CreateFind.antt =====
-- The create flow and a later search, over the in-memory store.
use sulix_intelligence.Prelude.{
  I64, ◌<◌, ◌^◌, ◌≡◌, refl, ap, ◌∙◌, List, [], ◌∷◌, ◌++◌, some, ok, false, any, find, Float, arith,
  ==_iff, add_i64,
}
use sulix_intelligence.Ids.{decision_id}
use sulix_intelligence.Decision.Types.{ProposeDecision}
use sulix_intelligence.Decision.Ports.{OutcomeJson, ReadsBack}
use sulix_intelligence.Store.DecisionRows.{Decision}
use sulix_intelligence.Store.Memory.{MemoryStore}
use sulix_intelligence.Store.Memory.Decisions.{has_id}
use sulix_intelligence.Infra.DecisionRepository.{row_of}
use sulix_intelligence.Infra.MemoryPorts.{memory_repository, memory_facts}
use sulix_intelligence.Infra.RowLaws.{from_store-row_of}
use sulix_intelligence.Infra.SaveFind.{facts, find-row}
use sulix_intelligence.Service.Decision.{Clock, create}
use sulix_intelligence.Service.Create.{IsProposable, executing_decision, create-fresh}

find-added :
    {F : Type 0}
    → (id : I64) (row : Decision F) (ds : List (Decision F)) → any (has_id id) ds ≡ false
    → row.id ≡ id
    → find (has_id id) (ds ++ row ∷ []) ≡ some row
find-added id row [] free e = ground (arith, ==_iff row.id id)
find-added id row (d ∷ ds) free e = ground (arith, find-added id row ds)

module _ {F : Type 0} ⦃fl : Float F⦄ (json : OutcomeJson) where
  -- After a create with a proposable command, whose expected outcomes the serializer reads back, and a next id below
  -- 2 ^ 64 that no row has, a search by the new id finds the decision of the command, executing.
  pub find-create :
      (cmd : ProposeDecision F) (clock : Clock) (s : MemoryStore F)
      → IsProposable cmd
      → s.next_decision_id < 2 ^ 64
      → any (has_id s.next_decision_id) s.decisions ≡ false
      → ReadsBack json cmd.expected_outcomes
      → let s' = (create (memory_repository json) memory_facts cmd clock s).1 in
        (memory_repository json).find (decision_id s.next_decision_id) s' ≡ (
          ok (
              some (record (executing_decision cmd s.next_decision_id clock) {
                observed_outcomes = facts s.next_decision_id s;
              })),
          s',
        )
  find-create cmd clock s p h free back =
      let id = s.next_decision_id in
      let d = executing_decision cmd id clock in
      let s' = record s {
        next_decision_id = add_i64 id 1;
        decisions = s.decisions ++ row_of json d id ∷ [];
      } in
      rw (create-fresh json cmd clock s p h free) (
        find-row json id (row_of json d id) s' h
          (find-added id (row_of json d id) s.decisions free refl)
        ∙ ap (λ o. (ok (some o), s')) (from_store-row_of json d id (facts id s) back refl))
