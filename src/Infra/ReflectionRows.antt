-- ===== src/Infra/ReflectionRows.antt =====
-- The reflection rows of the in-memory store, keyed by decision: what an update by row id does to the row of
-- a decision.
use sulix_intelligence.Prelude.{
  I64, ◌≡◌, refl, arith, [], ◌∷◌, ◌++◌, none, some, Bool, true, false, any, ◌==◌, HashMap, get,
  insert, values, update_value,
}
use sulix_intelligence.Store.PipelineRows.{Reflection}

module _ {F : Type 0} where
  abbrev pub has_row_id : I64 → Reflection F → Bool
  has_row_id id r = r.id == id

  -- No two rows have the same row id.
  abbrev pub UniqueIds : HashMap I64 (Reflection F) → Type 0
  UniqueIds [] = Unit
  UniqueIds ((k, r) ∷ m) = (any (has_row_id r.id) (values m) ≡ false) × UniqueIds m

  get-any :
      (d : I64) (m : HashMap I64 (Reflection F)) (r : Reflection F)
      → get ◌==◌ d m ≡ some r
      → any (has_row_id r.id) (values m) ≡ true
  get-any d [] r h = ground arith
  get-any d ((k, v) ∷ m) r h = ground (arith, get-any d m r)

  -- An update by the id of a decision's row reaches that row.
  pub get-update_value :
      (d : I64) (f : Reflection F → Reflection F) (m : HashMap I64 (Reflection F))
      (r : Reflection F)
      → UniqueIds m
      → get ◌==◌ d m ≡ some r
      → get ◌==◌ d (update_value (has_row_id r.id) f m) ≡ some (f r)
  get-update_value d f [] r u h = ground arith
  get-update_value d f ((k, v) ∷ m) r u h = ground (arith, get-update_value d f m r, get-any d m r)

  pub insert-new :
      (d : I64) (v : Reflection F) (m : HashMap I64 (Reflection F))
      → get ◌==◌ d m ≡ none
      → insert ◌==◌ d v m ≡ m ++ (d, v) ∷ []
  insert-new d v [] h = refl
  insert-new d v ((k, w) ∷ m) h = ground (arith, insert-new d v m)

  any-append :
      (i d : I64) (v : Reflection F) (m : HashMap I64 (Reflection F))
      → any (has_row_id i) (values m) ≡ false
      → (v.id == i) ≡ false
      → any (has_row_id i) (values (m ++ (d, v) ∷ [])) ≡ false
  any-append i d v [] h k = ground arith
  any-append i d v ((j, w) ∷ m) h k = ground (arith, any-append i d v m)

  pub append-UniqueIds :
      (d : I64) (v : Reflection F) (m : HashMap I64 (Reflection F))
      → UniqueIds m
      → any (has_row_id v.id) (values m) ≡ false
      → UniqueIds (m ++ (d, v) ∷ [])
  append-UniqueIds d v [] u h = (refl, tt)
  append-UniqueIds d v ((k, w) ∷ m) u h =
      (any-append w.id d v m u.0 (ground arith), append-UniqueIds d v m u.1 (ground arith))

  pub insert-UniqueIds :
      (d : I64) (v : Reflection F) (m : HashMap I64 (Reflection F))
      → UniqueIds m
      → get ◌==◌ d m ≡ none
      → any (has_row_id v.id) (values m) ≡ false
      → UniqueIds (insert ◌==◌ d v m)
  insert-UniqueIds d v m u e h = rw (insert-new d v m e) (append-UniqueIds d v m u h)
