-- ===== src/Signals/Clustering/Partition.antt =====
-- crates/intelligence/signal-engine/src/discovery/clustering.rs, `cluster_by_similarity`: the clusters are the
-- connected components of the kept edges.
use sulix_intelligence.Prelude.{
  ℕ, zero, suc, ◌+◌, ◌<◌, ◌≤◌, ◌≡◌, refl, sym, ◌∙◌, ap, arith, List, [], ◌∷◌, All, Bool, true,
  filterb, ◌==◌, Bool-cases, inl, inr, ==_iff, range_from, Has, length, map, subst,
  length-filterb-le, length-range_from,
}
use sulix_intelligence.Signals.Clustering.Unions.{Joined, flip, chain}
use sulix_intelligence.Signals.Clustering.Groups.{class, AreGrouped, Ascends, IsClass, has_key}

-- No two groups share a position.
abbrev pub AreApart : List (List ℕ) → Type 0
AreApart [] = Unit
AreApart (c ∷ cs) = All (λ e. (x : ℕ) → Has x c → ¬ Has x e) cs × AreApart cs

-- The groups are the classes of `E` on the positions below `n`: each holds positions joined to each other, and
-- each position is in one, with all that is joined to it.
pub record ArePartition (E : ℕ → ℕ → Type 0) (n : ℕ) (groups : List (List ℕ)) : Type 0 where
  pub inside : (c : List ℕ) → Has c groups → (x : ℕ) → Has x c → x < n
  pub joined : (c : List ℕ) → Has c groups → (x y : ℕ) → Has x c → Has y c → Joined E x y
  pub whole :
      (x : ℕ)
      → x < n
      → (c : List ℕ) × Has c groups × Has x c × ((y : ℕ) → y < n → Joined E x y → Has y c)
  pub apart : AreApart groups
  pub bounded : All (λ c. length c ≤ n) groups

Has-filterb :
    {A : Type 0}
    → (p : A → Bool) (a : A) (xs : List A) → p a ≡ true
    → Has a xs
    → Has a (filterb p xs)
Has-filterb p a [] h k = k
Has-filterb p a (x ∷ xs) h k = ground (arith, Has-filterb p a xs)

filterb-Has :
    {A : Type 0}
    → (p : A → Bool) (a : A) (xs : List A) → Has a (filterb p xs)
    → (p a ≡ true) × Has a xs
filterb-Has p a [] h = absurd h
filterb-Has p a (x ∷ xs) h = ground (arith, filterb-Has p a xs)

Has-range_from : (a n x : ℕ) → a ≤ x → x < a + n → Has x (range_from a n)
Has-range_from a zero x h k = absurd (omega arith)
Has-range_from a (suc n) x h k = ground (arith, Has-range_from (suc a) n x)

range_from-Has : (a n x : ℕ) → Has x (range_from a n) → (a ≤ x) × (x < a + n)
range_from-Has a zero x h = absurd h
range_from-Has a (suc n) x h = ground (arith, range_from-Has (suc a) n x)

pub All-Has : {A : Type 0} → (P : A → Type 0) (xs : List A) (a : A) → All P xs → Has a xs → P a
All-Has P [] a h k = absurd k
All-Has P (x ∷ xs) a h (inl e) = rw e h.0
All-Has P (x ∷ xs) a h (inr k) = All-Has P xs a h.1 k

abbrev is_of : List (ℕ × List ℕ) → List (List ℕ)
is_of = map (λ e. e.1)

module _ (n : ℕ) (f : ℕ → ℕ) where
  -- A group is the class of some root.
  group-class :
      (m : List (ℕ × List ℕ)) (c : List ℕ)
      → All (IsClass f (range_from 0 n)) m
      → Has c (is_of m)
      → (r : ℕ) × (c ≡ class f r (range_from 0 n))
  group-class [] c h k = absurd k
  group-class ((key, is) ∷ m) c h (inl e) = (key, e ∙ h.0)
  group-class ((key, is) ∷ m) c h (inr k) = group-class m c h.1 k

  class-group :
      (r : ℕ) (m : List (ℕ × List ℕ))
      → All (IsClass f (range_from 0 n)) m
      → has_key r m ≡ true
      → Has (class f r (range_from 0 n)) (is_of m)
  class-group r [] h k = absurd (ground arith)
  class-group r ((key, is) ∷ m) h k = elim (Bool-cases (key == r)) [
    | inl e ↦ inl (rw h.0 (rw ((==_iff key r).0 e) refl))
    | inr ne ↦ inr (class-group r m h.1 (ground arith))
  ]

  apart-class :
      (b r : ℕ) (m : List (ℕ × List ℕ))
      → Ascends b m
      → r < b
      → All (IsClass f (range_from 0 n)) m
      → All (λ e. (x : ℕ) → Has x (class f r (range_from 0 n)) → ¬ Has x e) (is_of m)
  apart-class b r [] a h k = tt
  apart-class b r ((key, is) ∷ m) a h k = (
    λ x p q.
        let fp = filterb-Has (λ i. f i == r) x (range_from 0 n) p in
        let fq = filterb-Has (λ i. f i == key) x (range_from 0 n) (subst (Has x) k.0 q) in
        ground (arith, fp.0, fq.0),
    apart-class (suc key) r m a.1 (omega arith) k.1,
  )

  groups-AreApart :
      (b : ℕ) (m : List (ℕ × List ℕ))
      → Ascends b m
      → All (IsClass f (range_from 0 n)) m
      → AreApart (is_of m)
  groups-AreApart b [] a k = tt
  groups-AreApart b ((key, is) ∷ m) a k = (
    subst (λ c. All (λ e. (x : ℕ) → Has x c → ¬ Has x e) (is_of m)) (sym k.0)
        (apart-class (suc key) key m a.1 (omega arith) k.1),
    groups-AreApart (suc key) m a.1 k.1,
  )

  groups-bounded :
      (m : List (ℕ × List ℕ))
      → All (IsClass f (range_from 0 n)) m
      → All (λ c. length c ≤ n) (is_of m)
  groups-bounded [] h = tt
  groups-bounded ((key, is) ∷ m) h = (
    omega (
      arith,
      length-filterb-le (λ i. f i == key) (range_from 0 n),
      length-range_from 0 n,
      ap length h.0,
    ),
    groups-bounded m h.1,
  )

  -- A position of a group is below `n`, and its root is that of the group.
  group-member :
      (m : List (ℕ × List ℕ)) (c : List ℕ)
      → All (IsClass f (range_from 0 n)) m
      → Has c (is_of m)
      → (r : ℕ) × ((x : ℕ) → Has x c → (f x ≡ r) × (x < n))
  group-member m c h k =
      let (r, e) = group-class m c h k in
      (
        r,
        λ x l.
            let (own, at) = filterb-Has (λ i. f i == r) x (range_from 0 n) (subst (Has x) e l) in
            ((==_iff (f x) r).0 own, omega (arith, range_from-Has 0 n x at)),
      )

  class-member : (x y : ℕ) → y < n → f x ≡ f y → Has y (class f (f x) (range_from 0 n))
  class-member x y h e =
      Has-filterb (λ i. f i == f x) y (range_from 0 n) (ground arith)
        (Has-range_from 0 n y (omega arith) (omega arith))

  pub AreGrouped-ArePartition :
      {E : ℕ → ℕ → Type 0}
      → (m : List (ℕ × List ℕ)) → AreGrouped f (range_from 0 n) m
      → ((x : ℕ) → Joined E x (f x))
      → ((x y : ℕ) → Joined E x y → f x ≡ f y)
      → ArePartition E n (is_of m)
  AreGrouped-ArePartition m g sound complete = record {
    inside = λ c h x k. ((group-member m c g.classes h).1 x k).1;
    joined = λ c h x y k l.
        let (r, member) = group-member m c g.classes h in
        let e = (member x k).0 ∙ sym (member y l).0 in chain (sound x) (rw e (flip (sound y)));
    whole = λ x h. (
      class f (f x) (range_from 0 n),
      class-group (f x) m g.classes (
          All-Has (λ j. has_key (f j) m ≡ true) (range_from 0 n) x g.keys
            (Has-range_from 0 n x (omega arith) (omega arith))),
      class-member x x h refl,
      λ y k j. class-member x y k (complete x y j),
    );
    apart = groups-AreApart 0 m g.ascends g.classes;
    bounded = groups-bounded m g.classes;
  }
