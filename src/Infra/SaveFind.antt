-- ===== src/Infra/SaveFind.antt =====
-- The contract of `DecisionRepository` over the in-memory store: what is saved is found.
use sulix_intelligence.Prelude.{
  I64, ◌<◌, ◌^◌, ◌≡◌, refl, ap, ◌∙◌, List, Option, none, some, map, arith, ok, find, find-upsert,
  filterb, ◌==◌, true, any, false, find-holds, Result, if◌then◌else◌, update_first, [], ◌∷◌, ◌++◌,
  ==_iff,
}
use sulix_intelligence.Ids.{decision_id}
use sulix_intelligence.Decision.Types.{ObservedOutcome, DecisionError}
use sulix_intelligence.Decision.Aggregate.{DecisionAggregate}
use sulix_intelligence.Decision.Ports.{OutcomeJson, ReadsBack}
use sulix_intelligence.Store.DecisionRows.{Decision}
use sulix_intelligence.Store.Memory.{MemoryStore}
use sulix_intelligence.Store.Memory.Decisions.{
  has_id, refreshed, find_decision, list_outcomes, upsert_decision, try_insert_decision,
}
use sulix_intelligence.Infra.DecisionRepository.{from_outcome, from_store, row_of, save, save_new}
use sulix_intelligence.Infra.MemoryPorts.{memory_repository}
use sulix_intelligence.Infra.RowLaws.{d1_id-decision_id, into_row-row_of, from_store-row_of}

-- The outcomes that the fact rows of a decision record.
abbrev pub facts : {F : Type 0} → I64 → MemoryStore F → List ObservedOutcome
facts id s = map from_outcome (filterb (λ o. o.decision_id == id) s.outcomes)

-- The store after an upsert.
abbrev pub upserted :
    {F : Type 0} → Decision F → MemoryStore F → Result (DecisionError F) (Unit {0}) × MemoryStore F
upserted d s = (
  ok tt,
  record s {
    decisions =
        if any (has_id d.id) s.decisions
        then update_first (has_id d.id) (refreshed d) s.decisions
        else s.decisions ++ d ∷ [];
  },
)

-- The creation time that the row of a decision keeps.
abbrev pub kept_created : {F : Type 0} → DecisionAggregate F → Option (Decision F) → I64
kept_created d none = d.created_at
kept_created d (some row) = row.created_at

module _ {F : Type 0} (json : OutcomeJson) where
  -- A search by domain id reads the row of that number and its fact rows.
  pub find-row :
      (id : I64) (row : Decision F) (s : MemoryStore F)
      → id < 2 ^ 64
      → find (has_id id) s.decisions ≡ some row
      → (memory_repository json).find (decision_id id) s
        ≡ (ok (some (from_store json row (facts row.id s))), s)
  unfolding memory_repository find_decision list_outcomes
  find-row id row s h e = rw (d1_id-decision_id {F = F} id h, e)

  pub find-missing :
      (id : I64) (s : MemoryStore F)
      → id < 2 ^ 64
      → find (has_id id) s.decisions ≡ none
      → (memory_repository json).find (decision_id id) s ≡ (ok none, s)
  unfolding memory_repository find_decision list_outcomes
  find-missing id s h e = rw (d1_id-decision_id {F = F} id h, e)

  pub save-eq :
      (d : DecisionAggregate F) (id : I64) (s : MemoryStore F)
      → d.id ≡ decision_id id
      → id < 2 ^ 64
      → (memory_repository json).save d s ≡ upserted (row_of json d id) s
  unfolding memory_repository upsert_decision
  save-eq d id s e h = rw (into_row-row_of json d id e h, save)

  pub found-id :
      (id : I64) (ds : List (Decision F)) (x : Decision F)
      → find (has_id id) ds ≡ some x
      → x.id ≡ id
  found-id id ds x e = (==_iff x.id id).0 (find-holds (has_id id) ds x e)

  row_kept :
      (d : DecisionAggregate F) (id : I64) (o : Option (Decision F))
      → ((x : Decision F) → o ≡ some x → x.id ≡ id)
      → ◌≡◌ {A = Option (Decision F)}
          (some (elim o [ none ↦ row_of json d id | some x ↦ refreshed (row_of json d id) x ]))
          (some (row_of json (record d { created_at = kept_created d o }) id))
  row_kept d id none h = refl
  row_kept d id (some x) h = let e = h x refl in ground arith

  pub upserted-find :
      (d : DecisionAggregate F) (id : I64) (s : MemoryStore F)
      → find (has_id id) (upserted (row_of json d id) s).1.decisions
        ≡ some (
            row_of json
              (record d { created_at = kept_created d (find (has_id id) s.decisions) })
              id)
  upserted-find d id s =
      find-upsert (has_id id) (refreshed (row_of json d id)) (row_of json d id) s.decisions
        ((==_iff id id).1 refl) (λ x h. h)
      ∙ row_kept d id (find (has_id id) s.decisions) (found-id id s.decisions)

  -- After a save of an aggregate with a domain id below 2 ^ 64, whose expected outcomes the serializer
  -- reads back, a search by the id succeeds, with the state that was saved, the creation time of the first
  -- save, and the outcomes of the fact rows.
  pub find-save :
      (d : DecisionAggregate F) (id : I64) (s : MemoryStore F)
      → ReadsBack json d.expected_outcomes
      → d.id ≡ decision_id id
      → id < 2 ^ 64
      → let s' = ((memory_repository json).save d s).1 in
        (memory_repository json).find (decision_id id) s' ≡ (
          ok (
              some (record d {
                created_at = kept_created d (find (has_id id) s.decisions);
                observed_outcomes = facts id s;
                events = [];
              })),
          s',
        )
  find-save d id s back e h = rw (save-eq d id s e h) (
      find-row id _ _ h (upserted-find d id s)
      ∙ ap (λ o. (ok (some o), (upserted (row_of json d id) s).1))
          (from_store-row_of json
            (record d { created_at = kept_created d (find (has_id id) s.decisions) }) id
            (facts id s) back e))

  -- A new aggregate with a domain id below 2 ^ 64 is inserted where that id has no row.
  pub save_new-fresh :
      (d : DecisionAggregate F) (id : I64) (s : MemoryStore F)
      → d.id ≡ decision_id id
      → id < 2 ^ 64
      → any (has_id id) s.decisions ≡ false
      → (memory_repository json).save_new d s
        ≡ (ok true, record s { decisions = s.decisions ++ row_of json d id ∷ [] })
  unfolding memory_repository try_insert_decision
  save_new-fresh d id s e h free = rw (into_row-row_of json d id e h, save_new) (rw free)

  -- A new aggregate with a domain id below 2 ^ 64 is refused where that id has a row, and nothing is
  -- written.
  pub save_new-taken :
      (d : DecisionAggregate F) (id : I64) (s : MemoryStore F)
      → d.id ≡ decision_id id
      → id < 2 ^ 64
      → any (has_id id) s.decisions ≡ true
      → (memory_repository json).save_new d s ≡ (ok false, s)
  unfolding memory_repository try_insert_decision
  save_new-taken d id s e h taken = rw (into_row-row_of json d id e h, save_new) (rw taken)
