-- ===== src/Signals/Clustering/Groups.antt =====
-- crates/intelligence/signal-engine/src/discovery/clustering.rs, `clusters`: each entry of the map ends as all
-- the positions of its root.
use mathlib.Core.List.{append-nil, append_assoc}
use sulix_intelligence.Prelude.{
  ℕ, suc, ◌<◌, ◌≤◌, ◌≡◌, ◌≢◌, refl, sym, arith, List, [], ◌∷◌, ◌++◌, All, Bool, true, false, some,
  filterb, ◌==◌, ltb, Bool-cases, inl, inr, ==_iff, subst, any, All-append,
}
use sulix_intelligence.Signals.Clustering.{UnionFind, push_entry, gather}
use sulix_intelligence.Signals.Clustering.Forest.{IsForest, find-IsForest}

-- The keys of a map ascend, from a bound on.
abbrev pub Ascends : ℕ → List (ℕ × List ℕ) → Type 0
Ascends b [] = Unit
Ascends b ((key, is) ∷ m) = (b ≤ key) × Ascends (suc key) m

Ascends-lower : (b c : ℕ) (m : List (ℕ × List ℕ)) → c ≤ b → Ascends b m → Ascends c m
Ascends-lower b c [] h a = tt
Ascends-lower b c ((key, is) ∷ m) h a = (omega arith, a.1)

push_entry-Ascends :
    (b r i : ℕ) (m : List (ℕ × List ℕ)) → Ascends b m → b ≤ r → Ascends b (push_entry r i m)
push_entry-Ascends b r i [] a h = (h, tt)
push_entry-Ascends b r i ((key, is) ∷ m) a h = ground (arith, push_entry-Ascends (suc key) r i m)

abbrev pub has_key : ℕ → List (ℕ × List ℕ) → Bool
has_key r = any (λ e. e.0 == r)

Ascends-has_key : (b r : ℕ) (m : List (ℕ × List ℕ)) → Ascends b m → r < b → has_key r m ≡ false
Ascends-has_key b r [] a h = refl
Ascends-has_key b r ((key, is) ∷ m) a h = ground (arith, Ascends-has_key (suc key) r m)

push_entry-has_key : (r i : ℕ) (m : List (ℕ × List ℕ)) → has_key r (push_entry r i m) ≡ true
push_entry-has_key r i [] = ground arith
push_entry-has_key r i ((key, is) ∷ m) = ground (arith, push_entry-has_key r i m)

push_entry-keeps :
    (r k i : ℕ) (m : List (ℕ × List ℕ)) → has_key k m ≡ true → has_key k (push_entry r i m) ≡ true
push_entry-keeps r k i [] h = ground arith
push_entry-keeps r k i ((key, is) ∷ m) h = ground (arith, push_entry-keeps r k i m)

module _ (f : ℕ → ℕ) where
  -- The positions of a root among those listed.
  abbrev pub class : ℕ → List ℕ → List ℕ
  class r = filterb (λ i. f i == r)

  -- Every entry holds the class of its key.
  abbrev pub IsClass : List ℕ → ℕ × List ℕ → Type 0
  IsClass seen e = e.1 ≡ class e.0 seen

  class-other : (r i : ℕ) (seen : List ℕ) → f i ≢ r → class r (seen ++ i ∷ []) ≡ class r seen
  class-other r i [] h = ground arith
  class-other r i (j ∷ seen) h = ground (arith, class-other r i seen)

  class-own :
      (r i : ℕ) (seen : List ℕ) → f i ≡ r → class r (seen ++ i ∷ []) ≡ class r seen ++ i ∷ []
  class-own r i [] h = ground arith
  class-own r i (j ∷ seen) h = ground (arith, class-own r i seen)

  later-IsClass :
      (b i : ℕ) (seen : List ℕ) (m : List (ℕ × List ℕ))
      → Ascends b m
      → f i < b
      → All (IsClass seen) m
      → All (IsClass (seen ++ i ∷ [])) m
  later-IsClass b i seen [] a h cs = tt
  later-IsClass b i seen ((key, is) ∷ m) a h cs = (
    rw (class-other key i seen (omega arith)) cs.0,
    later-IsClass (suc key) i seen m a.1 (omega arith) cs.1,
  )

  push_entry-IsClass :
      (b i : ℕ) (seen : List ℕ) (m : List (ℕ × List ℕ))
      → Ascends b m
      → All (IsClass seen) m
      → (has_key (f i) m ≡ false → class (f i) seen ≡ [])
      → All (IsClass (seen ++ i ∷ [])) (push_entry (f i) i m)
  push_entry-IsClass b i seen [] a cs new =
      (rw (class-own (f i) i seen refl) (rw (new refl) refl), tt)
  push_entry-IsClass b i seen ((key, is) ∷ m) a cs new = elim (Bool-cases (key == f i)) [
    | inl here ↦
        let e = (==_iff key (f i)).0 here in
        rw here (
          rw (class-own key i seen (sym e)) (rw cs.0 refl),
          later-IsClass (suc key) i seen m a.1 (omega arith) cs.1,
        )
    | inr there ↦
        let ne = class-other key i seen (ground arith) in
        rw there (elim (Bool-cases (ltb (f i) key)) [
          | inl before ↦
              let rest = later-IsClass (suc key) i seen m a.1 (ground arith) cs.1 in
              let no_key = Ascends-has_key (suc key) (f i) m a.1 (ground arith) in
              rw before (
                rw (class-own (f i) i seen refl) (rw (new (ground (arith, no_key))) refl),
                (rw ne cs.0, rest),
              )
          | inr after ↦
              rw after
                (rw ne cs.0, push_entry-IsClass (suc key) i seen m a.1 cs.1 (λ h. new (rw there h)))
        ])
  ]

  class-empty :
      (r : ℕ) (m : List (ℕ × List ℕ)) (seen : List ℕ)
      → All (λ j. has_key (f j) m ≡ true) seen
      → has_key r m ≡ false
      → class r seen ≡ []
  class-empty r m [] h k = refl
  class-empty r m (j ∷ seen) h k = elim (Bool-cases (f j == r)) [
    | inl e ↦ absurd (ground (arith, h.0, (==_iff (f j) r).0 e))
    | inr ne ↦ rw ne (class-empty r m seen h.1 k)
  ]

  keys-keep :
      (r i : ℕ) (m : List (ℕ × List ℕ)) (seen : List ℕ)
      → All (λ j. has_key (f j) m ≡ true) seen
      → All (λ j. has_key (f j) (push_entry r i m) ≡ true) seen
  keys-keep r i m [] h = tt
  keys-keep r i m (j ∷ seen) h = (push_entry-keeps r (f j) i m h.0, keys-keep r i m seen h.1)

  -- The map holds the classes of the positions seen so far.
  pub record AreGrouped (seen : List ℕ) (m : List (ℕ × List ℕ)) : Type 0 where
    pub ascends : Ascends 0 m
    pub classes : All (IsClass seen) m
    pub keys : All (λ j. has_key (f j) m ≡ true) seen

  push_entry-AreGrouped :
      (i : ℕ) (seen : List ℕ) (m : List (ℕ × List ℕ))
      → AreGrouped seen m
      → AreGrouped (seen ++ i ∷ []) (push_entry (f i) i m)
  push_entry-AreGrouped i seen m g = record {
    ascends = push_entry-Ascends 0 (f i) i m g.ascends (omega arith);
    classes = push_entry-IsClass 0 i seen m g.ascends g.classes (class-empty (f i) m seen g.keys);
    keys =
        All-append (λ j. has_key (f j) (push_entry (f i) i m) ≡ true) seen (i ∷ [])
          (keys-keep (f i) i m seen g.keys) (push_entry-has_key (f i) i m, tt);
  }

module _ {n : ℕ} {f d : ℕ → ℕ} where
  pub gather-AreGrouped :
      (fuel : ℕ) (is seen : List ℕ) (m : List (ℕ × List ℕ)) (uf : UnionFind)
      → IsForest n uf.parent f d
      → ((x : ℕ) → d x < fuel)
      → All (λ i. i < n) is
      → AreGrouped f seen m
      → (t : List (ℕ × List ℕ)) × (u : UnionFind) × (gather fuel is m uf ≡ some (t, u))
        × AreGrouped f (seen ++ is) t
  unfolding gather
  gather-AreGrouped fuel [] seen m uf w h k g = (m, uf, refl, rw (append-nil seen) g)
  gather-AreGrouped fuel (i ∷ is) seen m uf w h k g =
      let (u, found, v) = find-IsForest fuel i uf w k.0 (h i) in
      let (t, u', run, grouped) =
        gather-AreGrouped fuel is (seen ++ i ∷ []) (push_entry (f i) i m) u v h k.1
          (push_entry-AreGrouped f i seen m g) in
      (
        t,
        u',
        rw (gather, found, run) refl,
        subst (λ l. AreGrouped f l t) (append_assoc seen (i ∷ []) is) grouped,
      )
