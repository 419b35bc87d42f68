-- ===== src/Store/DecisionRace.antt =====
-- crates/store/src/memory/backend.rs, `try_insert_decision`: of racing creators one wins.
use sulix_intelligence.Prelude.{
  ℕ, I64, ◌+◌, ◌≤◌, ◌≡◌, refl, sym, ◌∙◌, ap, arith, List, [], ◌∷◌, Option, none, some, true, false,
  find, ◌==◌, ==_iff, if◌then◌else◌, Bool-cases, Option-cases, inl, inr,
}
use sulix_intelligence.Store.DecisionRows.{Decision}
use sulix_intelligence.Store.Memory.{MemoryStore}
use sulix_intelligence.Store.Memory.Decisions.{has_id}
use sulix_intelligence.Store.DecisionTable.{
  TableCall, upsert, try_insert, lookup, Answer, done, failed, inserted, found, Rows, map_call,
  map_answers, store_answers, store_answers-map_answers,
}

module _ {F : Type 0} where
  -- How many of the calls were insertions at the id that wrote a row.
  abbrev pub won : I64 → TableCall F → Answer F → ℕ
  won id (try_insert d) (inserted true) = if d.id == id then 1 else 0
  won id (try_insert d) (inserted false) = 0
  won id (try_insert d) done = 0
  won id (try_insert d) failed = 0
  won id (try_insert d) (found row) = 0
  won id (upsert d) a = 0
  won id (lookup j) a = 0

  abbrev pub wins : I64 → List (TableCall F) → List (Answer F) → ℕ
  wins id [] answers = 0
  wins id (c ∷ cs) [] = 0
  wins id (c ∷ cs) (a ∷ answers) = won id c a + wins id cs answers

  -- Whether the id is free.
  abbrev free : Option (Decision F) → ℕ
  free none = 1
  free (some row) = 0

  free-call :
      (id : I64) (c : TableCall F) (m : Rows F)
      → won id c (map_call c m).0 + free ((map_call c m).1 id) ≤ free (m id)
  free-call id (lookup j) m = omega arith
  free-call id (upsert d) m = elim (Bool-cases (d.id == id)) [
    | inl own ↦ rw own (omega arith)
    | inr other ↦ rw other (omega arith)
  ]
  free-call id (try_insert d) m = elim (Option-cases (m d.id)) [
    | inr (row, taken) ↦ rw (map_call, taken) (omega arith)
    | inl empty ↦
        rw (map_call, empty)
          (elim (Bool-cases (d.id == id)) [
            | inl own ↦
                let room : free (m id) ≡ 1 =
                  ap (λ j. free (m j)) (sym ((==_iff d.id id).0 own)) ∙ ap free empty in
                rw own (omega (arith, room))
            | inr other ↦ rw other (omega arith)
          ])
  ]

  wins-free :
      (id : I64) (cs : List (TableCall F)) (m : Rows F)
      → wins id cs (map_answers cs m) ≤ free (m id)
  wins-free id [] m = omega arith
  wins-free id (c ∷ cs) m = omega (arith, free-call id c m, wins-free id cs (map_call c m).1)

  free-le : (o : Option (Decision F)) → free o ≤ 1
  free-le none = omega arith
  free-le (some row) = omega arith

  -- Of all the insertions at an id, in any sequence of calls on a store, at most one writes a row.
  pub wins-store_answers :
      (id : I64) (cs : List (TableCall F)) (s : MemoryStore F) → wins id cs (store_answers cs s) ≤ 1
  wins-store_answers id cs s =
      let m = λ (j : I64). find (has_id j) s.decisions in
      let same = store_answers-map_answers cs s m (λ j. refl) in
      omega (arith, ap (wins id cs) same, wins-free id cs m, free-le (m id))
