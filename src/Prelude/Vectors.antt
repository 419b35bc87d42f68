-- ===== src/Prelude/Vectors.antt =====
-- `Vec<usize>` under an index, as `v[i]` and `v[i] = x`, and the range `0..n`.
use Prim.Native.Nat.{ℕ, zero, suc, ◌+◌, ◌<◌}
use mathlib.Core.Path.{◌≡◌, refl}
use mathlib.Core.Logic.{◌⊎◌, ◌≢◌}
use mathlib.Core.List.{List, [], ◌∷◌}
use native.Mathlib.Omega.{arith}
use sulix_intelligence.Prelude.Tests.{◌==◌, if◌then◌else◌}
use sulix_intelligence.Prelude.Lists.{length}

-- Out of range the source panics: the theorems show that no index is.
abbrev pub get_elem : List ℕ → ℕ → ℕ
get_elem [] i = 0
get_elem (x ∷ xs) zero = x
get_elem (x ∷ xs) (suc i) = get_elem xs i

abbrev pub set_elem : List ℕ → ℕ → ℕ → List ℕ
set_elem [] i v = []
set_elem (x ∷ xs) zero v = v ∷ xs
set_elem (x ∷ xs) (suc i) v = x ∷ set_elem xs i v

-- `(0..n).collect()`
abbrev pub range_from : ℕ → ℕ → List ℕ
range_from a zero = []
range_from a (suc n) = a ∷ range_from (suc a) n

-- `vec![v; n]`
abbrev pub replicate {ℓ} : {A : Type ℓ} → ℕ → A → List A
replicate zero v = []
replicate (suc n) v = v ∷ replicate n v

-- Membership, by the equality of the elements.
abbrev pub Has : {A : Type 0} → A → List A → Type 0
Has a [] = ⊥
Has a (x ∷ xs) = (a ≡ x) ⊎ Has a xs

pub length-set_elem : (xs : List ℕ) (i v : ℕ) → length (set_elem xs i v) ≡ length xs
length-set_elem [] i v = refl
length-set_elem (x ∷ xs) zero v = refl
length-set_elem (x ∷ xs) (suc i) v = omega (arith, length-set_elem xs i v)

pub get_elem-set_elem_same :
    (xs : List ℕ) (i v : ℕ) → i < length xs → get_elem (set_elem xs i v) i ≡ v
get_elem-set_elem_same [] i v h = absurd (omega arith)
get_elem-set_elem_same (x ∷ xs) zero v h = refl
get_elem-set_elem_same (x ∷ xs) (suc i) v h = get_elem-set_elem_same xs i v (omega arith)

pub get_elem-set_elem_other :
    (xs : List ℕ) (i j v : ℕ) → j ≢ i → get_elem (set_elem xs i v) j ≡ get_elem xs j
get_elem-set_elem_other [] i j v h = refl
get_elem-set_elem_other (x ∷ xs) zero zero v h = absurd (h refl)
get_elem-set_elem_other (x ∷ xs) zero (suc j) v h = refl
get_elem-set_elem_other (x ∷ xs) (suc i) zero v h = refl
get_elem-set_elem_other (x ∷ xs) (suc i) (suc j) v h =
    get_elem-set_elem_other xs i j v (omega arith)

pub length-range_from : (a n : ℕ) → length (range_from a n) ≡ n
length-range_from a zero = refl
length-range_from a (suc n) = omega (arith, length-range_from (suc a) n)

pub get_elem-range_from : (a n i : ℕ) → i < n → get_elem (range_from a n) i ≡ a + i
get_elem-range_from a zero i h = absurd (omega arith)
get_elem-range_from a (suc n) zero h = omega arith
get_elem-range_from a (suc n) (suc i) h =
    omega (arith, get_elem-range_from (suc a) n i (omega arith))

pub get_elem-set_elem :
    (xs : List ℕ) (i j v : ℕ)
    → i < length xs
    → get_elem (set_elem xs i v) j ≡ (if j == i then v else get_elem xs j)
get_elem-set_elem [] i j v h = absurd (omega arith)
get_elem-set_elem (x ∷ xs) zero zero v h = refl
get_elem-set_elem (x ∷ xs) zero (suc j) v h = ground arith
get_elem-set_elem (x ∷ xs) (suc i) zero v h = ground arith
get_elem-set_elem (x ∷ xs) (suc i) (suc j) v h =
    ground (arith, get_elem-set_elem xs i j v (omega arith))
