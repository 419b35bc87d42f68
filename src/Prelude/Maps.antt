-- ===== src/Prelude/Maps.antt =====
-- `HashMap` as an association list, by the test of its keys. `values` gives one of the orders that the
-- table may have; an insertion at a key that is there replaces the value.
use mathlib.Core.Path.{◌≡◌, refl}
use mathlib.Core.Bool.{Bool, not}
use mathlib.Core.List.{List, [], ◌∷◌, map}
use mathlib.Core.Option.{Option, none, some}
use native.Mathlib.Omega.{arith}
use sulix_intelligence.Prelude.Tests.{◌==◌, if◌then◌else◌}
use sulix_intelligence.Prelude.Lists.{update_first, filterb}
use sulix_intelligence.Prelude.Word.{I64}

abbrev pub HashMap : Type 0 → Type 0 → Type 0
HashMap K V = List (K × V)

module _ {K V : Type 0} (eq : K → K → Bool) where
  abbrev pub get : K → HashMap K V → Option V
  get k [] = none
  get k ((j, v) ∷ m) = let rest = get k m in if eq j k then some v else rest

  abbrev pub insert : K → V → HashMap K V → HashMap K V
  insert k v [] = (k, v) ∷ []
  insert k v ((j, w) ∷ m) = let rest = insert k v m in if eq j k then (k, v) ∷ m else (j, w) ∷ rest

  abbrev pub remove : K → HashMap K V → HashMap K V
  remove k = filterb (λ e. not (eq e.0 k))

abbrev pub values : {K V : Type 0} → HashMap K V → List V
values = map (λ e. e.1)

-- Writes through the first hit of `values_mut().find(p)`, if there is one.
abbrev pub update_value : {K V : Type 0} → (V → Bool) → (V → V) → HashMap K V → HashMap K V
update_value p f = update_first (λ e. p e.1) (λ e. (e.0, f e.1))

module _ {V : Type 0} where
  pub get-insert :
      (k j : I64) (v : V) (m : HashMap I64 V)
      → get ◌==◌ j (insert ◌==◌ k v m) ≡ (if k == j then some v else get ◌==◌ j m)
  get-insert k j v [] = refl
  get-insert k j v ((i, w) ∷ m) = ground (arith, get-insert k j v m)

  pub get-insert_same :
      (k : I64) (v : V) (m : HashMap I64 V) → get ◌==◌ k (insert ◌==◌ k v m) ≡ some v
  get-insert_same k v [] = ground arith
  get-insert_same k v ((i, w) ∷ m) = ground (arith, get-insert_same k v m)

  pub get-remove :
      (k j : I64) (m : HashMap I64 V)
      → get ◌==◌ j (remove ◌==◌ k m) ≡ (if k == j then none else get ◌==◌ j m)
  get-remove k j [] = ground arith
  get-remove k j ((i, w) ∷ m) = ground (arith, get-remove k j m)
