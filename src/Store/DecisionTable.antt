-- ===== src/Store/DecisionTable.antt =====
-- crates/store/src/memory/backend.rs, `DecisionRepository`: the table of decisions behaves as a map from ids to rows,
-- whatever callers interleave their calls.
use sulix_intelligence.Prelude.{
  I64, ◌≡◌, refl, sym, ◌∙◌, ap, arith, List, [], ◌∷◌, ◌++◌, Option, none, some, Bool, true, false,
  ok, err, Result, find, any, update_first, ◌==◌, ==_iff, if◌then◌else◌, Bool-cases, Option-cases,
  inl, inr,
}
use sulix_intelligence.Store.DecisionRows.{Decision}
use sulix_intelligence.Store.Error.{StoreError}
use sulix_intelligence.Store.Memory.{MemoryStore}
use sulix_intelligence.Store.Memory.Decisions.{
  has_id, refreshed, upsert_decision, try_insert_decision, find_decision,
}

pub data TableCall (F : Type 0) : Type 0 where
  upsert try_insert : Decision F → TableCall F
  lookup : I64 → TableCall F

pub data Answer (F : Type 0) : Type 0 where
  done failed : Answer F
  inserted : Bool → Answer F
  found : Option (Decision F) → Answer F

-- The rows by id, and what the calls mean on them.
abbrev pub Rows : Type 0 → Type 0
Rows F = I64 → Option (Decision F)

module _ {F : Type 0} where
  abbrev pub with_row : Decision F → Rows F → Rows F
  with_row d m id = if d.id == id then some d else m id

  -- An upsert writes all of a row but its id and its creation time.
  abbrev pub merged : Decision F → Option (Decision F) → Decision F
  merged d none = d
  merged d (some row) = record d { id = row.id; created_at = row.created_at }

  abbrev pub map_call : TableCall F → Rows F → Answer F × Rows F
  map_call (upsert d) m = (done, λ id. if d.id == id then some (merged d (m id)) else m id)
  map_call (try_insert d) m = elim (m d.id) [
    | none ↦ (inserted true, with_row d m)
    | some row ↦ (inserted false, m)
  ]
  map_call (lookup id) m = (found (m id), m)

  -- The calls on the store, with their results.
  abbrev pub upsert_answer : Result StoreError (Unit {0}) → Answer F
  upsert_answer (ok x) = done
  upsert_answer (err e) = failed

  abbrev pub insert_answer : Result StoreError Bool → Answer F
  insert_answer (ok b) = inserted b
  insert_answer (err e) = failed

  abbrev pub find_answer : Result StoreError (Option (Decision F)) → Answer F
  find_answer (ok row) = found row
  find_answer (err e) = failed

  unfoldable pub store_call : TableCall F → MemoryStore F → Answer F × MemoryStore F
  unfolding upsert_decision try_insert_decision find_decision
  store_call (upsert d) s = let (r, t) = upsert_decision d s in (upsert_answer r, t)
  store_call (try_insert d) s = let (r, t) = try_insert_decision d s in (insert_answer r, t)
  store_call (lookup id) s = let (r, t) = find_decision id s in (find_answer r, t)

  -- The answers to a sequence of calls.
  unfoldable pub store_answers : List (TableCall F) → MemoryStore F → List (Answer F)
  unfolding store_call
  store_answers [] s = []
  store_answers (c ∷ cs) s = let (a, t) = store_call c s in a ∷ store_answers cs t

  abbrev pub map_answers : List (TableCall F) → Rows F → List (Answer F)
  map_answers [] m = []
  map_answers (c ∷ cs) m = let (a, n) = map_call c m in a ∷ map_answers cs n

  -- The store holds these rows.
  abbrev pub Holds : MemoryStore F → Rows F → Type 0
  Holds s m = (id : I64) → find (has_id id) s.decisions ≡ m id

  find-append :
      (id : I64) (ds : List (Decision F)) (d : Decision F)
      → find (has_id d.id) ds ≡ none
      → find (has_id id) (ds ++ d ∷ []) ≡ (if d.id == id then some d else find (has_id id) ds)
  find-append id [] d h = refl
  find-append id (x ∷ ds) d h = ground (arith, find-append id ds d)

  find-update :
      (id : I64) (d : Decision F) (ds : List (Decision F)) (x : Decision F)
      → find (has_id d.id) ds ≡ some x
      → find (has_id id) (update_first (has_id d.id) (refreshed d) ds)
        ≡ (if d.id == id then some (refreshed d x) else find (has_id id) ds)
  find-update id d [] x h = cc
  find-update id d (y ∷ ds) x h = ground (arith, find-update id d ds x)

  any-none :
      (id : I64) (ds : List (Decision F)) → find (has_id id) ds ≡ none → any (has_id id) ds ≡ false
  any-none id [] h = refl
  any-none id (x ∷ ds) h = ground (arith, any-none id ds)

  any-some :
      (id : I64) (ds : List (Decision F)) (x : Decision F)
      → find (has_id id) ds ≡ some x
      → any (has_id id) ds ≡ true
  any-some id [] x h = cc
  any-some id (y ∷ ds) x h = ground (arith, any-some id ds x)

  merged-row :
      (d : Decision F) (row : Option (Decision F)) (id : I64) (m : Rows F)
      → m d.id ≡ row
      → (if d.id == id then some (merged d row) else m id)
        ≡ (if d.id == id then some (merged d (m id)) else m id)
  merged-row d row id m h = elim (Bool-cases (d.id == id)) [
    | inl own ↦ rw own (ap (λ r. some (merged d r)) (sym h ∙ ap m ((==_iff d.id id).0 own)))
    | inr other ↦ rw other refl
  ]

  -- One call: the answer is that of the map, and the store holds the map's rows again.
  Simulates : TableCall F → MemoryStore F → Rows F → Type 0
  Simulates c s m =
      ((store_call c s).0 ≡ (map_call c m).0) × Holds (store_call c s).1 (map_call c m).1

  upsert-Simulates :
      (d : Decision F) (s : MemoryStore F) (m : Rows F) → Holds s m → Simulates (upsert d) s m
  unfolding Simulates store_call upsert_decision
  upsert-Simulates d s m h = elim (Option-cases (find (has_id d.id) s.decisions)) [
    | inl free ↦ (
      refl,
      λ id. rw (any-none d.id s.decisions free) (
          find-append id s.decisions d free
          ∙ ap (λ r. if d.id == id then some d else r) (h id)
          ∙ merged-row d none id m (sym (h d.id) ∙ free)),
    )
    | inr (x, taken) ↦ (
      refl,
      λ id. rw (any-some d.id s.decisions x taken) (
          find-update id d s.decisions x taken
          ∙ ap (λ r. if d.id == id then some (refreshed d x) else r) (h id)
          ∙ merged-row d (some x) id m (sym (h d.id) ∙ taken)),
    )
  ]

  try_insert-Simulates :
      (d : Decision F) (s : MemoryStore F) (m : Rows F) → Holds s m → Simulates (try_insert d) s m
  unfolding Simulates store_call try_insert_decision
  try_insert-Simulates d s m h = elim (Option-cases (find (has_id d.id) s.decisions)) [
    | inl free ↦ rw (any-none d.id s.decisions free) (
        rw (map_call, sym (h d.id) ∙ free)
          (
            refl,
            λ id.
                find-append id s.decisions d free
                ∙ ap (λ r. if d.id == id then some d else r) (h id),
          ))
    | inr (x, taken) ↦
        rw (any-some d.id s.decisions x taken) (rw (map_call, sym (h d.id) ∙ taken) (refl, h))
  ]

  call-Simulates : (c : TableCall F) (s : MemoryStore F) (m : Rows F) → Holds s m → Simulates c s m
  unfolding Simulates store_call find_decision
  call-Simulates (upsert d) s m h = upsert-Simulates d s m h
  call-Simulates (try_insert d) s m h = try_insert-Simulates d s m h
  call-Simulates (lookup id) s m h = (ap found (h id), h)

  -- The table refines a map from ids to rows: from a store that holds the rows of a map, every sequence of upserts,
  -- insertions and lookups gets the answers of the map, where an insertion at an id that has a row is refused and an
  -- upsert keeps the creation time of the row.
  pub store_answers-map_answers :
      (cs : List (TableCall F)) (s : MemoryStore F) (m : Rows F)
      → Holds s m
      → store_answers cs s ≡ map_answers cs m
  unfolding store_answers Simulates
  store_answers-map_answers [] s m h = refl
  store_answers-map_answers (c ∷ cs) s m h =
      let (answer, holds) = call-Simulates c s m h in
      ap (λ a. a ∷ store_answers cs (store_call c s).1) answer
      ∙ ap (◌∷◌ (map_call c m).0)
          (store_answers-map_answers cs (store_call c s).1 (map_call c m).1 holds)
