-- ===== src/Signals/Clustering/Components.antt =====
-- crates/intelligence/signal-engine/src/discovery/clustering.rs, `cluster_by_similarity`: it ends, and what it
-- returns are the connected components of the candidates under the kept edges.
use sulix_intelligence.Prelude.{
  ℕ, zero, suc, I64, ◌+◌, ◌<◌, ◌≤◌, ◌≡◌, refl, sym, ◌∙◌, arith, List, [], ◌∷◌, All, some, ◌==◌, inl,
  inr, range_from, Has, length, length-range_from, get_elem-range_from, Float, HashMap, get, insert,
  map, Option-cases,
}
use sulix_intelligence.Signals.Clustering.{
  SimilarityEdge, UnionFind, new, joined, index_from, build_index_map, clusters, raw_clusters,
  arrange, cluster_by_similarity,
}
use sulix_intelligence.Signals.Clustering.Forest.{IsForest}
use sulix_intelligence.Signals.Clustering.Unions.{
  Joined, same, edge, flip, chain, pairs, IsPair, union_edges-AfterEdges,
}
use sulix_intelligence.Signals.Clustering.Groups.{gather-AreGrouped}
use sulix_intelligence.Signals.Clustering.Partition.{ArePartition, AreGrouped-ArePartition, All-Has}

abbrev Below : ℕ → HashMap I64 ℕ → Type 0
Below n = All (λ e. e.1 < n)

insert-Below :
    (n : ℕ) (k : I64) (v : ℕ) (m : HashMap I64 ℕ) → v < n → Below n m → Below n (insert ◌==◌ k v m)
insert-Below n k v [] h b = (h, tt)
insert-Below n k v ((j, w) ∷ m) h b = ground (arith, insert-Below n k v m)

Below-more : (n o : ℕ) (m : HashMap I64 ℕ) → n ≤ o → Below n m → Below o m
Below-more n o [] h b = tt
Below-more n o ((j, w) ∷ m) h b = (omega arith, Below-more n o m h b.1)

index_from-Below :
    (i n : ℕ) (ids : List I64) (m : HashMap I64 ℕ)
    → i + length ids ≤ n
    → Below n m
    → Below n (index_from i ids m)
index_from-Below i n [] m h b = b
index_from-Below i n (id ∷ ids) m h b =
    index_from-Below (suc i) n ids (insert ◌==◌ id i m) (omega arith)
      (insert-Below n id i m (omega arith) b)

get-Below :
    (n : ℕ) (k : I64) (v : ℕ) (m : HashMap I64 ℕ) → Below n m → get ◌==◌ k m ≡ some v → v < n
get-Below n k v [] b h = cc
get-Below n k v ((j, w) ∷ m) b h = ground (arith, get-Below n k v m)

new-IsForest : (n : ℕ) → IsForest n (new n).parent (λ x. x) (λ x. 0)
unfolding new
new-IsForest n =
    let at = λ (x : ℕ) (h : x < n). get_elem-range_from 0 n x h in
    record {
      size = length-range_from 0 n;
      parent_lt = λ x h. omega (arith, at x h);
      root_lt = λ x h. h;
      same_root = λ x h. omega (arith, at x h);
      root_top = λ x h. omega (arith, at x h);
      top_root = λ x h e. refl;
      root_level = λ x h. refl;
      climbs = λ x h e. absurd (e (omega (arith, at x h)));
    }

module _ (g : ℕ → ℕ) (ps : List (ℕ × ℕ)) where
  Joined-root :
      {x y : ℕ} → All (λ p. g p.0 ≡ g p.1) ps → Joined (λ a b. Has (a, b) ps) x y → g x ≡ g y
  Joined-root h (same z) = refl
  Joined-root {x} {y} h (edge k) = All-Has (λ p. g p.0 ≡ g p.1) ps (x, y) h k
  Joined-root h (flip j) = sym (Joined-root h j)
  Joined-root h (chain j k) = Joined-root h j ∙ Joined-root h k

All-IsPair :
    (n : ℕ) (ps qs : List (ℕ × ℕ))
    → All (λ p. (p.0 < n) × (p.1 < n)) qs
    → ((p : ℕ × ℕ) → Has p qs → Has p ps)
    → All (IsPair (λ a b. Has (a, b) ps) n) qs
All-IsPair n ps [] h k = tt
All-IsPair n ps (q ∷ qs) h k =
    ((h.0.0, h.0.1, k q (inl refl)), All-IsPair n ps qs h.1 (λ p l. k p (inr l)))

All-range_from : (a n m : ℕ) → a + n ≤ m → All (λ i. i < m) (range_from a n)
All-range_from a zero m h = tt
All-range_from a (suc n) m h = (omega arith, All-range_from (suc a) n m (omega arith))

clusters-ArePartition :
    {n : ℕ} {g e : ℕ → ℕ} {E : ℕ → ℕ → Type 0} (fuel : ℕ) (u : UnionFind)
    → IsForest n u.parent g e
    → ((x : ℕ) → e x < fuel)
    → ((x : ℕ) → Joined E x (g x))
    → ((x y : ℕ) → Joined E x y → g x ≡ g y)
    → (raw : List (List ℕ)) × (clusters fuel u ≡ some raw) × ArePartition E n raw
unfolding clusters
clusters-ArePartition {n} {g} fuel u w room sound complete =
    let (m, v, run, grouped) =
      gather-AreGrouped fuel (range_from 0 n) [] [] u w room (All-range_from 0 n n (omega arith))
        (record { ascends = tt; classes = tt; keys = tt }) in
    (
      map (λ e. e.1) m,
      rw (clusters, w.size, run) refl,
      AreGrouped-ArePartition n g m grouped sound complete,
    )

module _ {F : Type 0} ⦃fl : Float F⦄ where
  joined-Below :
      (min : F) (n : ℕ) (index : HashMap I64 ℕ) (e : SimilarityEdge F) (p : ℕ × ℕ)
      → Below n index
      → joined min index e ≡ some p
      → (p.0 < n) × (p.1 < n)
  joined-Below min n index e p b h =
      ground (arith, get-Below n e.article_a p.0 index b, get-Below n e.article_b p.1 index b)

  pairs-Below :
      (min : F) (n : ℕ) (index : HashMap I64 ℕ) (es : List (SimilarityEdge F))
      → Below n index
      → All (λ p. (p.0 < n) × (p.1 < n)) (pairs min index es)
  pairs-Below min n index [] b = tt
  pairs-Below min n index (e ∷ es) b = elim (Option-cases (joined min index e)) [
    | inl skip ↦ rw skip (pairs-Below min n index es b)
    | inr (p, kept) ↦ rw kept (joined-Below min n index e p b kept, pairs-Below min n index es b)
  ]

  -- The positions that an edge joins.
  abbrev pub Linked : List (SimilarityEdge F) → List I64 → F → ℕ → ℕ → Type 0
  Linked edges ids min a b = Has (a, b) (pairs min (build_index_map ids) edges)

  raw_clusters-ArePartition :
      (fuel : ℕ) (edges : List (SimilarityEdge F)) (ids : List I64) (min : F)
      → length edges < fuel
      → (raw : List (List ℕ)) × (raw_clusters fuel edges ids min ≡ some raw)
        × ArePartition (Linked edges ids min) (length ids) raw
  unfolding raw_clusters build_index_map
  raw_clusters-ArePartition fuel edges ids min h =
      let n = length ids in
      let index = build_index_map ids in
      let ps = pairs min index edges in
      let below = pairs-Below min n index edges (index_from-Below 0 n ids [] (omega arith) tt) in
      let (u, g, e, run, w, room, merged) =
        union_edges-AfterEdges min index fuel 0 edges (new n) (λ x. x) (λ x. 0) (new-IsForest n)
          (All-IsPair n ps ps below (λ p k. k)) (λ x. omega arith) (omega arith) same in
      let (raw, grouped, partition) =
        clusters-ArePartition fuel u w room merged.sound
          (λ x y. Joined-root g ps merged.complete) in
      (raw, rw (raw_clusters, run, grouped) refl, partition)

  -- With more fuel than there are edges the clustering ends. Its clusters are, sorted, those of at least the
  -- given size among the connected components of the candidates, whose edges are the similar enough ones.
  pub cluster_by_similarity-components :
      (fuel : ℕ) (edges : List (SimilarityEdge F)) (ids : List I64) (min : F) (min_size : ℕ)
      → length edges < fuel
      → (raw : List (List ℕ)) × (cluster_by_similarity fuel edges ids min min_size
          ≡ some (arrange ids min_size raw))
        × ArePartition (Linked edges ids min) (length ids) raw
  unfolding cluster_by_similarity arrange
  cluster_by_similarity-components fuel edges [] min min_size h = ([], refl, nothing)
    where
      nothing : ArePartition (Linked edges [] min) 0 []
      nothing = record {
        inside = λ c k. absurd k;
        joined = λ c k. absurd k;
        whole = λ x k. absurd (omega arith);
        apart = tt;
        bounded = tt;
      }
  cluster_by_similarity-components fuel edges (id ∷ ids) min min_size h =
      let (raw, run, partition) = raw_clusters-ArePartition fuel edges (id ∷ ids) min h in
      (raw, rw (cluster_by_similarity, run) refl, partition)
