-- ===== src/Signals/Clustering/Sizes.antt =====
-- crates/intelligence/signal-engine/src/discovery/clustering.rs, `cluster_by_similarity`: the sizes of its clusters.
use sulix_intelligence.Prelude.{
  ℕ, suc, I64, ◌<◌, ◌≤◌, ◌≡◌, refl, ◌∙◌, arith, List, [], ◌∷◌, All, Bool, some, length, map,
  filterb, insert_by, sort_by, leb, ltb, lt_i64, get_elem, Float, ap,
}
use sulix_intelligence.Signals.Clustering.{SimilarityEdge, arrange, cluster_by_similarity}
use sulix_intelligence.Signals.Clustering.Components.{cluster_by_similarity-components}

module _ {A : Type 0} where
  length-insert_by :
      (lt : A → A → Bool) (x : A) (xs : List A) → length (insert_by lt x xs) ≡ suc (length xs)
  length-insert_by lt x [] = refl
  length-insert_by lt x (y ∷ ys) = ground (arith, length-insert_by lt x ys)

  length-sort_by : (lt : A → A → Bool) (xs : List A) → length (sort_by lt xs) ≡ length xs
  length-sort_by lt [] = refl
  length-sort_by lt (x ∷ xs) =
      omega (arith, length-insert_by lt x (sort_by lt xs), length-sort_by lt xs)

  All-insert_by :
      (P : A → Type 0) (lt : A → A → Bool) (x : A) (xs : List A)
      → P x
      → All P xs
      → All P (insert_by lt x xs)
  All-insert_by P lt x [] p h = (p, tt)
  All-insert_by P lt x (y ∷ ys) p h = ground (arith, All-insert_by P lt x ys p h.1)

  All-sort_by :
      (P : A → Type 0) (lt : A → A → Bool) (xs : List A) → All P xs → All P (sort_by lt xs)
  All-sort_by P lt [] h = tt
  All-sort_by P lt (x ∷ xs) h = All-insert_by P lt x (sort_by lt xs) h.0 (All-sort_by P lt xs h.1)

length-map : {A B : Type 0} → (f : A → B) (xs : List A) → length (map f xs) ≡ length xs
length-map f [] = refl
length-map f (x ∷ xs) = ap suc (length-map f xs)

-- Adjacent clusters: the larger one is first.
abbrev pub ShrinksFrom : ℕ → List (List I64) → Type 0
ShrinksFrom n [] = Unit
ShrinksFrom n (c ∷ cs) = (length c ≤ n) × ShrinksFrom (length c) cs

insert_by-ShrinksFrom :
    (n : ℕ) (c : List I64) (cs : List (List I64))
    → length c ≤ n
    → ShrinksFrom n cs
    → ShrinksFrom n (insert_by (λ c d. ltb (length d) (length c)) c cs)
insert_by-ShrinksFrom n c [] h k = (h, tt)
insert_by-ShrinksFrom n c (d ∷ cs) h k = ground (arith, insert_by-ShrinksFrom (length d) c cs)

sort_by-ShrinksFrom :
    (n : ℕ) (cs : List (List I64))
    → All (λ c. length c ≤ n) cs
    → ShrinksFrom n (sort_by (λ c d. ltb (length d) (length c)) cs)
sort_by-ShrinksFrom n [] h = tt
sort_by-ShrinksFrom n (c ∷ cs) h =
    insert_by-ShrinksFrom n c (sort_by (λ c d. ltb (length d) (length c)) cs) h.0
      (sort_by-ShrinksFrom n cs h.1)

abbrev article_list : List I64 → List ℕ → List I64
article_list ids c = sort_by lt_i64 (map (get_elem ids) c)

length-article_list : (ids : List I64) (c : List ℕ) → length (article_list ids c) ≡ length c
length-article_list ids c =
    length-sort_by lt_i64 (map (get_elem ids) c) ∙ length-map (get_elem ids) c

kept_sizes :
    (ids : List I64) (k n : ℕ) (raw : List (List ℕ))
    → All (λ c. length c ≤ n) raw
    → All
        (λ c. (k ≤ length c) × (length c ≤ n))
        (map (article_list ids) (filterb (λ c. leb k (length c)) raw))
kept_sizes ids k n [] h = tt
kept_sizes ids k n (c ∷ raw) h =
    ground (arith, kept_sizes ids k n raw h.1, length-article_list ids c)

All-upper :
    (k n : ℕ) (cs : List (List I64))
    → All (λ c. (k ≤ length c) × (length c ≤ n)) cs
    → All (λ c. length c ≤ n) cs
All-upper k n [] h = tt
All-upper k n (c ∷ cs) h = (h.0.1, All-upper k n cs h.1)

module _ {F : Type 0} ⦃fl : Float F⦄ where
  -- With more fuel than there are edges, the clusters that come out have at least the given size and at most as
  -- many articles as there are candidates, and none is larger than the one before it.
  pub cluster_by_similarity-sizes :
      (fuel : ℕ) (edges : List (SimilarityEdge F)) (ids : List I64) (min : F) (min_size : ℕ)
      → length edges < fuel
      → (cs : List (List I64)) × (cluster_by_similarity fuel edges ids min min_size ≡ some cs)
        × All (λ c. (min_size ≤ length c) × (length c ≤ length ids)) cs
        × ShrinksFrom (length ids) cs
  unfolding arrange
  cluster_by_similarity-sizes fuel edges ids min min_size h =
      let (raw, run, partition) = cluster_by_similarity-components fuel edges ids min min_size h in
      let n = length ids in
      let sizes = kept_sizes ids min_size n raw partition.bounded in
      let kept = map (article_list ids) (filterb (λ c. leb min_size (length c)) raw) in
      (
        arrange ids min_size raw,
        run,
        All-sort_by (λ c. (min_size ≤ length c) × (length c ≤ n)) (λ c d. ltb (length d) (length c))
            kept sizes,
        sort_by-ShrinksFrom n kept (All-upper min_size n kept sizes),
      )
