-- ===== src/Signals/Clustering.antt =====
-- crates/intelligence/signal-engine/src/discovery/clustering.rs: articles are grouped by union-find over the
-- edges of the similarity search. `find` recurses along the parents; its fuel is the longest chain it may follow.
pub mod Forest
pub mod Unions
pub mod Groups
pub mod Partition
pub mod Components
pub mod Sizes
use sulix_intelligence.Prelude.{
  ℕ, zero, suc, I64, ◌+◌, ◌%◌, ◌^◌, Bool, not, List, [], ◌∷◌, ◌++◌, map, Option, none, some, length,
  is_empty, filterb, sort_by, ltb, ◌==◌, lt_i64, if◌then◌else◌, Float, HashMap, get, insert,
  get_elem, set_elem, range_from, replicate, leb,
}

pub record SimilarityEdge (F : Type 0) : Type 0 where
  pub article_a : I64
  pub article_b : I64
  pub similarity : F

pub record ArticleCluster : Type 0 where
  pub article_ids : List I64

pub record UnionFind : Type 0 where
  pub parent : List ℕ
  pub size : List ℕ

-- `UnionFind::new`
unfoldable pub new : ℕ → UnionFind
new n = record { parent = range_from 0 n; size = replicate n 1 }

-- The path is compressed on the way back.
unfoldable pub find : ℕ → ℕ → UnionFind → Option (ℕ × UnionFind)
find zero x uf = none
find (suc fuel) x uf =
    let up = find fuel (get_elem uf.parent x) uf in
    if get_elem uf.parent x == x then some (x, uf) else elim up [
      | none ↦ none
      | some (root, u) ↦
          let parent = set_elem u.parent x root in
          some (get_elem parent x, record u { parent = parent })
    ]

-- `usize` has 32 bits on wasm32.
abbrev pub add_usize : ℕ → ℕ → ℕ
add_usize a b = (a + b) % 2 ^ 32

-- The rest of `union`, after the roots are found.
unfoldable pub attach : ℕ → ℕ → UnionFind → UnionFind
attach ra rb uf =
    if ra == rb
    then uf
    else if ltb (get_elem uf.size ra) (get_elem uf.size rb)
    then record uf {
      parent = set_elem uf.parent ra rb;
      size = set_elem uf.size rb (add_usize (get_elem uf.size rb) (get_elem uf.size ra));
    }
    else record uf {
      parent = set_elem uf.parent rb ra;
      size = set_elem uf.size ra (add_usize (get_elem uf.size ra) (get_elem uf.size rb));
    }

unfoldable pub union : ℕ → ℕ → ℕ → UnionFind → Option UnionFind
unfolding find attach
union fuel a b uf = elim (find fuel a uf) [
  | none ↦ none
  | some (ra, u) ↦ elim (find fuel b u) [ none ↦ none | some (rb, v) ↦ some (attach ra rb v) ]
]

-- `map.entry(root).or_default().push(i)` in a `BTreeMap`, whose entries stand in the order of their keys.
abbrev pub push_entry : ℕ → ℕ → List (ℕ × List ℕ) → List (ℕ × List ℕ)
push_entry root i [] = (root, i ∷ []) ∷ []
push_entry root i ((key, is) ∷ m) =
    let rest = push_entry root i m in
    if key == root
    then (key, is ++ i ∷ []) ∷ m
    else if ltb root key
    then (root, i ∷ []) ∷ (key, is) ∷ m
    else (key, is) ∷ rest

-- The loop of `clusters`.
unfoldable pub gather :
    ℕ → List ℕ → List (ℕ × List ℕ) → UnionFind → Option (List (ℕ × List ℕ) × UnionFind)
unfolding find
gather fuel [] m uf = some (m, uf)
gather fuel (i ∷ is) m uf = elim (find fuel i uf) [
  | none ↦ none
  | some (root, u) ↦ gather fuel is (push_entry root i m) u
]

unfoldable pub clusters : ℕ → UnionFind → Option (List (List ℕ))
unfolding gather
clusters fuel uf = elim (gather fuel (range_from 0 (length uf.parent)) [] uf) [
  | none ↦ none
  | some (m, u) ↦ some (map (λ e. e.1) m)
]

-- A later position of the same id replaces the earlier one.
abbrev pub index_from : ℕ → List I64 → HashMap I64 ℕ → HashMap I64 ℕ
index_from i [] m = m
index_from i (id ∷ ids) m = index_from (suc i) ids (insert ◌==◌ id i m)

unfoldable pub build_index_map : List I64 → HashMap I64 ℕ
build_index_map ids = index_from 0 ids []

module _ {F : Type 0} ⦃fl : Float F⦄ where
  -- The positions that an edge joins, if it is similar enough and both its articles are candidates.
  abbrev pub joined : F → HashMap I64 ℕ → SimilarityEdge F → Option (ℕ × ℕ)
  joined min_similarity index edge =
      if fl.lt edge.similarity min_similarity then none else elim (get ◌==◌ edge.article_a index) [
        | none ↦ none
        | some a ↦ elim (get ◌==◌ edge.article_b index) [ none ↦ none | some b ↦ some (a, b) ]
      ]

  -- The loop over the edges.
  unfoldable pub union_edges :
      ℕ → F → HashMap I64 ℕ → List (SimilarityEdge F) → UnionFind → Option UnionFind
  unfolding union
  union_edges fuel min_similarity index [] uf = some uf
  union_edges fuel min_similarity index (edge ∷ edges) uf =
      elim (joined min_similarity index edge) [
        | none ↦ union_edges fuel min_similarity index edges uf
        | some (a, b) ↦ elim (union fuel a b uf) [
          | none ↦ none
          | some u ↦ union_edges fuel min_similarity index edges u
        ]
      ]

-- The ids of a cluster, in their order, and the clusters of enough articles, the larger ones first.
unfoldable pub arrange : List I64 → ℕ → List (List ℕ) → List (List I64)
arrange article_ids min_cluster_size raw =
    sort_by (λ c d. ltb (length d) (length c))
      (map (λ c. sort_by lt_i64 (map (get_elem article_ids) c))
        (filterb (λ c. leb min_cluster_size (length c)) raw))

module _ {F : Type 0} ⦃fl : Float F⦄ where
  -- The positions of the articles, grouped.
  unfoldable pub raw_clusters : ℕ → List (SimilarityEdge F) → List I64 → F → Option (List (List ℕ))
  unfolding new union_edges clusters build_index_map
  raw_clusters fuel edges article_ids min_similarity =
      elim (union_edges fuel min_similarity (build_index_map article_ids) edges
        (new (length article_ids))) [ none ↦ none | some uf ↦ clusters fuel uf ]

  unfoldable pub cluster_by_similarity :
      ℕ → List (SimilarityEdge F) → List I64 → F → ℕ → Option (List (List I64))
  unfolding raw_clusters arrange
  cluster_by_similarity fuel edges article_ids min_similarity min_cluster_size =
      if is_empty article_ids
      then some []
      else elim (raw_clusters fuel edges article_ids min_similarity) [
        | none ↦ none
        | some raw ↦ some (arrange article_ids min_cluster_size raw)
      ]
