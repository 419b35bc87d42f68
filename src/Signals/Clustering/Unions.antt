-- ===== src/Signals/Clustering/Unions.antt =====
-- crates/intelligence/signal-engine/src/discovery/clustering.rs, `union` and the loop over the edges: two
-- positions get one root exactly if a chain of kept edges joins them.
use sulix_intelligence.Prelude.{
  ℕ, suc, I64, ◌+◌, ◌<◌, ◌≤◌, ◌≡◌, ◌≢◌, ◌⊎◌, refl, sym, arith, List, [], ◌∷◌, All, length, Option,
  none, some, get_elem, set_elem, length-set_elem, get_elem-set_elem, ◌==◌, ltb, if◌then◌else◌,
  Bool-cases, inl, inr, Option-cases, subst, Float, HashMap,
}
use sulix_intelligence.Signals.Clustering.{
  SimilarityEdge, UnionFind, attach, union, joined, union_edges,
}
use sulix_intelligence.Signals.Clustering.Forest.{IsForest, find-IsForest}

-- What joins two positions: a chain of the pairs that `E` relates, in either direction.
pub data Joined (E : ℕ → ℕ → Type 0) : ℕ → ℕ → Type 0 where
  same : (x : ℕ) → Joined E x x
  edge : {x y : ℕ} → E x y → Joined E x y
  flip : {x y : ℕ} → Joined E x y → Joined E y x
  chain : {x y z : ℕ} → Joined E x y → Joined E y z → Joined E x z

-- The roots and the steps after the root `c` is put below the root `r`.
abbrev reroot : ℕ → ℕ → (ℕ → ℕ) → ℕ → ℕ
reroot c r f x = if f x == c then r else f x

abbrev deepen : ℕ → (ℕ → ℕ) → (ℕ → ℕ) → ℕ → ℕ
deepen c f d x = if f x == c then suc (d x) else d x

module _ {n : ℕ} {f d : ℕ → ℕ} where
  link-IsForest :
      (p : List ℕ) (c r : ℕ)
      → IsForest n p f d
      → c < n
      → r < n
      → f c ≡ c
      → f r ≡ r
      → c ≢ r
      → IsForest n (set_elem p c r) (reroot c r f) (deepen c f d)
  link-IsForest p c r w hc hr ec er ne =
      let at = λ (y : ℕ). get_elem-set_elem p c y r (rw w.size hc) in
      record {
        size = omega (arith, length-set_elem p c r, w.size);
        parent_lt = λ y k. ground (arith, at y, w.parent_lt y);
        root_lt = λ y k. ground (arith, w.root_lt y);
        same_root = λ y k. ground (arith, at y, w.same_root y);
        root_top = λ y k. ground (arith, at (f y), at r, w.root_top y, w.root_top r);
        top_root = λ y k e. ground (arith, at y, w.top_root y);
        root_level = λ y k. ground (
          arith,
          w.root_level y,
          w.root_level r,
          w.root_lt y,
          w.same_root y,
          w.top_root (f y),
          w.root_top y,
        );
        climbs = λ y k e.
            ground (arith, at y, w.climbs y, w.root_level r, w.root_level c, w.same_root y);
      }

-- What a union of `a` and `b` makes of the roots and the steps.
record Merged (a b : ℕ) (f d g e : ℕ → ℕ) : Type 0 where
  meets : g a ≡ g b
  keeps : (x y : ℕ) → f x ≡ f y → g x ≡ g y
  origin : (x : ℕ) → (g x ≡ f x) ⊎ (((f x ≡ f a) × (g x ≡ f b)) ⊎ ((f x ≡ f b) × (g x ≡ f a)))
  deeper : (x : ℕ) → e x ≤ suc (d x)

-- A forest in which `a` and `b` have been united.
abbrev United : ℕ → ℕ → ℕ → (ℕ → ℕ) → (ℕ → ℕ) → UnionFind → Type 0
United n a b f d u = (g : ℕ → ℕ) × (e : ℕ → ℕ) × IsForest n u.parent g e × Merged a b f d g e

module _ {n : ℕ} {f d : ℕ → ℕ} where
  attach-IsForest :
      (a b : ℕ) (uf : UnionFind)
      → IsForest n uf.parent f d
      → a < n
      → b < n
      → United n a b f d (attach (f a) (f b) uf)
  unfolding attach
  attach-IsForest a b uf w ha hb =
      let ra = w.top_root (f a) (w.root_lt a ha) (w.root_top a ha) in
      let rb = w.top_root (f b) (w.root_lt b hb) (w.root_top b hb) in
      let linked = λ (c r : ℕ) (hc : c < n) (hr : r < n). link-IsForest uf.parent c r w hc hr in
      elim (Bool-cases (f a == f b)) [
        | inl one ↦ rw one (
          f,
          d,
          w,
          record {
            meets = ground (arith, one);
            keeps = λ x y h. h;
            origin = λ x. inl refl;
            deeper = λ x. omega arith;
          },
        )
        | inr two ↦
            rw two (elim (Bool-cases (ltb (get_elem uf.size (f a)) (get_elem uf.size (f b)))) [
              | inl small ↦ rw small (
                reroot (f a) (f b) f,
                deepen (f a) f d,
                linked (f a) (f b) (w.root_lt a ha) (w.root_lt b hb) ra rb (ground arith),
                record {
                  meets = ground (arith, two);
                  keeps = λ x y h. ground (arith, h);
                  origin = λ x. ground arith;
                  deeper = λ x. ground arith;
                },
              )
              | inr large ↦ rw large (
                reroot (f b) (f a) f,
                deepen (f b) f d,
                linked (f b) (f a) (w.root_lt b hb) (w.root_lt a ha) rb ra (ground arith),
                record {
                  meets = ground (arith, two);
                  keeps = λ x y h. ground (arith, h);
                  origin = λ x. ground arith;
                  deeper = λ x. ground arith;
                },
              )
            ])
      ]

  union-IsForest :
      (fuel a b : ℕ) (uf : UnionFind)
      → IsForest n uf.parent f d
      → a < n
      → b < n
      → ((x : ℕ) → d x < fuel)
      → (u : UnionFind) × (union fuel a b uf ≡ some u) × United n a b f d u
  unfolding union
  union-IsForest fuel a b uf w ha hb h =
      let (u, found_a, wa) = find-IsForest fuel a uf w ha (h a) in
      let (v, found_b, wb) = find-IsForest fuel b u wa hb (h b) in
      (attach (f a) (f b) v, rw (union, found_a, found_b) refl, attach-IsForest a b v wb ha hb)

abbrev pub add_kept : Option (ℕ × ℕ) → List (ℕ × ℕ) → List (ℕ × ℕ)
add_kept none ps = ps
add_kept (some p) ps = p ∷ ps

module _ {F : Type 0} ⦃fl : Float F⦄ (min : F) (index : HashMap I64 ℕ) where
  -- The pairs of positions that the edges join.
  abbrev pub pairs : List (SimilarityEdge F) → List (ℕ × ℕ)
  pairs [] = []
  pairs (e ∷ es) = add_kept (joined min index e) (pairs es)

-- Every root is joined to its positions, and every pair has one root.
pub record AreMerged (E : ℕ → ℕ → Type 0) (ps : List (ℕ × ℕ)) (f g : ℕ → ℕ) : Type 0 where
  pub keeps : (x y : ℕ) → f x ≡ f y → g x ≡ g y
  pub sound : (x : ℕ) → Joined E x (g x)
  pub complete : All (λ p. g p.0 ≡ g p.1) ps

module _ {E : ℕ → ℕ → Type 0} {a b : ℕ} {f d g e : ℕ → ℕ} where
  Merged-Joined :
      Merged a b f d g e → E a b → ((x : ℕ) → Joined E x (f x)) → (x : ℕ) → Joined E x (g x)
  Merged-Joined m h j x =
      let ab = chain (flip (j a)) (chain (edge h) (j b)) in
      elim (m.origin x) [
        | inl e ↦ rw e (j x)
        | inr (inl (e, k)) ↦ rw k (chain (rw (sym e) (j x)) ab)
        | inr (inr (e, k)) ↦ rw k (chain (rw (sym e) (j x)) (flip ab))
      ]

-- Both positions of the pair exist, and `E` relates them.
abbrev pub IsPair : (E : ℕ → ℕ → Type 0) → ℕ → ℕ × ℕ → Type 0
IsPair E n p = (p.0 < n) × (p.1 < n) × E p.0 p.1

-- The state after the edges: a forest with chains below the fuel, whose roots are those of the joined positions.
abbrev pub AfterEdges :
    (E : ℕ → ℕ → Type 0) → ℕ → ℕ → List (ℕ × ℕ) → (ℕ → ℕ) → Option UnionFind → Type 0
AfterEdges E n fuel ps f r =
    (u : UnionFind) × (g : ℕ → ℕ) × (e : ℕ → ℕ) × (r ≡ some u)
    × IsForest n u.parent g e
    × ((x : ℕ) → e x < fuel)
    × AreMerged E ps f g

module _ {F : Type 0} ⦃fl : Float F⦄ (min : F) (index : HashMap I64 ℕ) {n : ℕ} {E : ℕ → ℕ → Type 0}
    (fuel : ℕ) where
  pub union_edges-AfterEdges :
      (k : ℕ) (es : List (SimilarityEdge F)) (uf : UnionFind) (f d : ℕ → ℕ)
      → IsForest n uf.parent f d
      → All (IsPair E n) (pairs min index es)
      → ((x : ℕ) → d x ≤ k)
      → k + length es < fuel
      → ((x : ℕ) → Joined E x (f x))
      → AfterEdges E n fuel (pairs min index es) f (union_edges fuel min index es uf)
  unfolding union_edges
  union_edges-AfterEdges k [] uf f d w ps h room j = (
    uf,
    f,
    d,
    refl,
    w,
    λ x. omega (arith, h x),
    record { keeps = λ x y e. e; sound = j; complete = tt },
  )
  union_edges-AfterEdges k (e ∷ es) uf f d w ps h room j =
      elim (Option-cases (joined min index e)) [
        | inl skip ↦
            let ps' = subst (λ o. All (IsPair E n) (add_kept o (pairs min index es))) skip ps in
            rw (union_edges, skip) (union_edges-AfterEdges k es uf f d w ps' h (omega arith) j)
        | inr (p, kept) ↦
            let ps' = subst (λ o. All (IsPair E n) (add_kept o (pairs min index es))) kept ps in
            let (u, united, (g, e', v, m)) =
              union-IsForest fuel p.0 p.1 uf w ps'.0.0 ps'.0.1 (λ x. omega (arith, h x)) in
            let (t, g', e'', run, forest, below, merged) =
              union_edges-AfterEdges (suc k) es u g e' v ps'.1 (λ x. omega (arith, h x, m.deeper x))
                (omega arith) (Merged-Joined m ps'.0.2 j) in
            rw (union_edges, kept)
              (
                t,
                g',
                e'',
                rw (united, run) refl,
                forest,
                below,
                record {
                  keeps = λ x y q. merged.keeps x y (m.keeps x y q);
                  sound = merged.sound;
                  complete = (merged.keeps p.0 p.1 m.meets, merged.complete);
                },
              )
      ]
