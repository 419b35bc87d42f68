-- ===== src/Signals/Clustering/Forest.antt =====
-- crates/intelligence/signal-engine/src/discovery/clustering.rs, `find`: along the parents of a forest it ends
-- at the root, and the compression of the path keeps every root.
use sulix_intelligence.Prelude.{
  ℕ, zero, suc, ◌<◌, ◌≡◌, ◌≢◌, refl, arith, List, length, some, get_elem, set_elem, length-set_elem,
  get_elem-set_elem, ◌==◌, Bool-cases, inl, inr, ==_iff,
}
use sulix_intelligence.Signals.Clustering.{UnionFind, find}

-- The parents `p` of `n` positions form a forest: `f` gives the root of a position, and `d` bounds the steps to
-- it.
pub record IsForest (n : ℕ) (p : List ℕ) (f d : ℕ → ℕ) : Type 0 where
  pub size : length p ≡ n
  pub parent_lt : (x : ℕ) → x < n → get_elem p x < n
  pub root_lt : (x : ℕ) → x < n → f x < n
  pub same_root : (x : ℕ) → x < n → f (get_elem p x) ≡ f x
  pub root_top : (x : ℕ) → x < n → get_elem p (f x) ≡ f x
  pub top_root : (x : ℕ) → x < n → get_elem p x ≡ x → f x ≡ x
  pub root_level : (x : ℕ) → x < n → d (f x) ≡ 0
  pub climbs : (x : ℕ) → x < n → get_elem p x ≢ x → d (get_elem p x) < d x

module _ {n : ℕ} {f d : ℕ → ℕ} where
  root_root : {p : List ℕ} → IsForest n p f d → (x : ℕ) → x < n → f (f x) ≡ f x
  root_root w x h = w.top_root (f x) (w.root_lt x h) (w.root_top x h)

  -- Setting the parent of a position to its root.
  compress-IsForest :
      (p : List ℕ) (x : ℕ) → IsForest n p f d → x < n → IsForest n (set_elem p x (f x)) f d
  compress-IsForest p x w h =
      let at = λ (y : ℕ). get_elem-set_elem p x y (f x) (rw w.size h) in
      record {
        size = omega (arith, length-set_elem p x (f x), w.size);
        parent_lt = λ y k. ground (arith, at y, w.parent_lt y, w.root_lt x);
        root_lt = w.root_lt;
        same_root = λ y k. ground (arith, at y, w.same_root y, root_root w x);
        root_top = λ y k. ground (arith, at (f y), w.root_top y, root_root w x, root_root w y);
        top_root = λ y k e. ground (arith, at y, w.top_root y);
        root_level = w.root_level;
        climbs = λ y k e. ground (arith, at y, w.climbs y, w.root_level x, w.top_root y);
      }

  -- With fuel for the steps that `d` bounds, `find` gives the root and a forest with the same roots.
  pub find-IsForest :
      (fuel x : ℕ) (uf : UnionFind)
      → IsForest n uf.parent f d
      → x < n
      → d x < fuel
      → (u : UnionFind) × (find fuel x uf ≡ some (f x, u)) × IsForest n u.parent f d
  unfolding find
  find-IsForest zero x uf w h e = absurd (omega arith)
  find-IsForest (suc fuel) x uf w h e = elim (Bool-cases (get_elem uf.parent x == x)) [
    | inl top ↦ (uf, rw top (rw (w.top_root x h ((==_iff (get_elem uf.parent x) x).0 top)) refl), w)
    | inr below ↦
        let step = w.climbs x h (ground arith) in
        let up = w.same_root x h in
        let (u, found, v) =
          find-IsForest fuel (get_elem uf.parent x) uf w (w.parent_lt x h) (omega arith) in
        let at = get_elem-set_elem u.parent x x (f x) (rw v.size h) in
        (
          record u { parent = set_elem u.parent x (f x) },
          rw below (rw found (rw up (ground (arith, at)))),
          compress-IsForest u.parent x v h,
        )
  ]
