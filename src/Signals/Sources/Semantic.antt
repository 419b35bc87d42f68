-- ===== src/Signals/Sources/Semantic.antt =====
-- crates/intelligence/signal-engine/src/source.rs, `SemanticDiscoverySource`: the edges it finds, and the candidates
-- it makes of the clusters.
use Prim.Native.String.{String}
use sulix_intelligence.Prelude.{
  ℕ, suc, I64, ◌≤◌, ◌≡◌, ◌≢◌, refl, ap, sym, subst, get_or, arith, List, [], ◌∷◌, ◌++◌, All,
  All-append, map, length, ok, Bool-cases, Option-cases, inl, inr, true, false, ◌&&◌, ◌||◌, ◌==◌,
  ltb, Float,
}
use sulix_intelligence.Prelude.Decimal.{parse_i64}
use sulix_intelligence.Signals.Models.{SignalCandidate, EmbeddedArticle, SimilarArticle, semantic}
use sulix_intelligence.Signals.Ports.{SemanticQuery}
use sulix_intelligence.Signals.Clustering.{SimilarityEdge}
use sulix_intelligence.Signals.Clustering.Sizes.{cluster_by_similarity-sizes}
use sulix_intelligence.Signals.Sources.{
  Found, pair_key, has_pair, add_neighbor, add_match, add_matches, find_edges, clusters_of,
  cluster_to_candidate, cluster_candidates, semantic_candidates,
}
use sulix_intelligence.Signals.Engine.Counters.{Succeeds}

module _ {F : Type 0} where
  abbrev pub key_of : SimilarityEdge F → I64 × I64
  key_of e = pair_key e.article_a e.article_b

  -- No edge joins an article to itself, and no two join the same pair.
  abbrev pub AreSimple : List (SimilarityEdge F) → Type 0
  AreSimple [] = Unit
  AreSimple (e ∷ es) =
      (e.article_a ≢ e.article_b) × (has_pair (key_of e) (map key_of es) ≡ false) × AreSimple es

  abbrev IsTracked : Found F → Type 0
  IsTracked found = AreSimple found.1 × All (λ e. has_pair (key_of e) found.0 ≡ true) found.1

has_pair-append :
    (k p : I64 × I64) (ps : List (I64 × I64))
    → has_pair k (ps ++ p ∷ []) ≡ (has_pair k ps || (p.0 == k.0 && p.1 == k.1))
has_pair-append k p [] = ground arith
has_pair-append k p (q ∷ ps) = ground (arith, has_pair-append k p ps)

has_pair-same :
    (k j : I64 × I64) (ps : List (I64 × I64))
    → (k.0 == j.0 && k.1 == j.1) ≡ true
    → has_pair k ps ≡ has_pair j ps
has_pair-same k j [] h = refl
has_pair-same k j (q ∷ ps) h = ground (arith, has_pair-same k j ps h)

module _ {F : Type 0} where
  map-append :
      (es : List (SimilarityEdge F)) (e : SimilarityEdge F)
      → map key_of (es ++ e ∷ []) ≡ map key_of es ++ key_of e ∷ []
  map-append [] e = refl
  map-append (x ∷ es) e = ap (◌∷◌ (key_of x)) (map-append es e)

  AreSimple-append :
      (es : List (SimilarityEdge F)) (e : SimilarityEdge F)
      → AreSimple es
      → e.article_a ≢ e.article_b
      → has_pair (key_of e) (map key_of es) ≡ false
      → AreSimple (es ++ e ∷ [])
  AreSimple-append [] e s ne h = (ne, refl, tt)
  AreSimple-append (x ∷ es) e s ne h = (
    s.0,
    rw (map-append es e)
        (rw (has_pair-append (key_of x) (key_of e) (map key_of es)) (ground (arith, s.1, h))),
    AreSimple-append es e s.2 ne (ground (arith, h)),
  )

  unseen :
      (k : I64 × I64) (seen : List (I64 × I64)) (es : List (SimilarityEdge F))
      → All (λ e. has_pair (key_of e) seen ≡ true) es
      → has_pair k seen ≡ false
      → has_pair k (map key_of es) ≡ false
  unseen k seen [] t h = refl
  unseen k seen (e ∷ es) t h =
      ground (arith, unseen k seen es t.1 h, t.0, has_pair-same (key_of e) k seen)

  seen-more :
      (k : I64 × I64) (seen : List (I64 × I64)) (es : List (SimilarityEdge F))
      → All (λ e. has_pair (key_of e) seen ≡ true) es
      → All (λ e. has_pair (key_of e) (k ∷ seen) ≡ true) es
  seen-more k seen [] t = tt
  seen-more k seen (e ∷ es) t = (ground (arith, t.0), seen-more k seen es t.1)

  add_neighbor-IsTracked :
      (a : I64) (score : F) (b : I64) (seen : List (I64 × I64)) (es : List (SimilarityEdge F))
      → IsTracked (seen, es)
      → IsTracked (add_neighbor a score b (seen, es))
  add_neighbor-IsTracked a score b seen es t =
      elim (Bool-cases (b == a || has_pair (pair_key a b) seen)) [
        | inl skip ↦ rw skip t
        | inr fresh ↦
            let new : SimilarityEdge F = record {
              article_a = a;
              article_b = b;
              similarity = score;
            } in
            rw fresh (
              AreSimple-append es new t.0 (ground (arith, fresh))
                  (unseen (pair_key a b) seen es t.1 (ground (arith, fresh))),
              All-append (λ e. has_pair (key_of e) (pair_key a b ∷ seen) ≡ true) es (new ∷ [])
                  (seen-more (pair_key a b) seen es t.1) (ground arith, tt),
            )
      ]

  add_matches-IsTracked :
      (a : I64) (ms : List (SimilarArticle F)) (found : Found F)
      → IsTracked found
      → IsTracked (add_matches a ms found)
  add_matches-IsTracked a [] found t = t
  add_matches-IsTracked a (m ∷ ms) found t =
      add_matches-IsTracked a ms (add_match a m found)
        (elim (Option-cases (parse_i64 m.vector_id)) [
          | inl unread ↦ rw (add_match, unread) t
          | inr (b, read) ↦
              rw (add_match, read) (add_neighbor-IsTracked a m.score b found.0 found.1 t)
        ])

abbrev pub AlwaysFinds : {F St : Type 0} → SemanticQuery F St → Type 0
AlwaysFinds {F} query = (id : String) (k : ℕ) (min : F) → Succeeds (query.find_similar id k min)

module _ {F St : Type 0} ⦃fl : Float F⦄ (query : SemanticQuery F St) where
  find_edges-IsTracked :
      (articles : List EmbeddedArticle) (found : Found F) (s : St)
      → AlwaysFinds query
      → IsTracked found
      → (after : Found F) × (t : St) × (find_edges query articles found s ≡ (ok after, t))
        × IsTracked after
  unfolding find_edges
  find_edges-IsTracked [] found s h k = (found, s, refl, k)
  find_edges-IsTracked (a ∷ articles) found s h k =
      let (ms, s1, run) = h a.vector_id 20 (fl.ratio 75 100) s in
      let next = add_matches a.article_id ms found in
      let (after, t, rest, tracked) =
        find_edges-IsTracked articles next s1 h (add_matches-IsTracked a.article_id ms found k) in
      (after, t, rw (find_edges, run) rest, tracked)

  pub find_edges-AreSimple :
      (articles : List EmbeddedArticle) (s : St)
      → AlwaysFinds query
      → (after : Found F) × (t : St) × (find_edges query articles ([], []) s ≡ (ok after, t))
        × AreSimple after.1
  find_edges-AreSimple articles s h =
      let (after, t, run, tracked) = find_edges-IsTracked articles ([], []) s h (tt, tt) in
      (after, t, run, tracked.0)

module _ {F : Type 0} where
  -- A candidate of a cluster of three articles or more, and of at most so many.
  abbrev pub IsClusterOf : ℕ → SignalCandidate F → Type 0
  IsClusterOf n c = (3 ≤ c.article_count) × (c.article_count ≤ n) × (c.discovery_method ≡ semantic)

module _ {F : Type 0} ⦃fl : Float F⦄ (cluster_id : List I64 → String) where
  candidates-sizes :
      (n : ℕ) (edges : List (SimilarityEdge F)) (cs : List (List I64))
      → All (λ c. (3 ≤ length c) × (length c ≤ n)) cs
      → All
          (IsClusterOf n)
          (map (λ c. cluster_to_candidate cluster_id (record { article_ids = c }) edges) cs)
  unfolding cluster_to_candidate
  candidates-sizes n edges [] h = tt
  candidates-sizes n edges (c ∷ cs) h = ((h.0.0, h.0.1, refl), candidates-sizes n edges cs h.1)

module _ {F : Type 0} ⦃fl : Float F⦄ where
  clusters_of-sizes :
      (edges : List (SimilarityEdge F)) (ids : List I64)
      → All (λ c. (3 ≤ length c) × (length c ≤ length ids)) (clusters_of edges ids)
  clusters_of-sizes edges ids =
      let (cs, run, sizes, shrink) =
        cluster_by_similarity-sizes (suc (length edges)) edges ids (fl.ratio 75 100) 3
          (omega arith) in
      subst (λ r. All (λ c. (3 ≤ length c) × (length c ≤ length ids)) (get_or r [])) (sym run) sizes

length-ids :
    (articles : List EmbeddedArticle) → length (map (λ a. a.article_id) articles) ≡ length articles
length-ids [] = refl
length-ids (a ∷ articles) = ap suc (length-ids articles)

module _ {F St : Type 0} ⦃fl : Float F⦄ (cluster_id : List I64 → String)
    (query : SemanticQuery F St) where
  -- Where the semantic queries succeed, the articles give candidates, each of a semantic cluster of at least three
  -- articles and at most all of them.
  pub semantic_candidates-sizes :
      (articles : List EmbeddedArticle) (s : St)
      → AlwaysFinds query
      → (cs : List (SignalCandidate F)) × (t : St) × (semantic_candidates cluster_id query articles
            s
          ≡ (ok cs, t))
        × All (IsClusterOf (length articles)) cs
  semantic_candidates-sizes articles s h = elim (Bool-cases (ltb (length articles) 3)) [
    | inl few ↦ ([], s, rw few refl, tt)
    | inr enough ↦
        let (found, t, run, tracked) = find_edges-AreSimple query articles s h in
        let sizes = clusters_of-sizes found.1 (map (λ a. a.article_id) articles) in
        (
          cluster_candidates cluster_id articles found.1,
          t,
          rw enough (rw run refl),
          candidates-sizes cluster_id (length articles) found.1
              (clusters_of found.1 (map (λ a. a.article_id) articles))
              (subst
                (λ n.
                  All (λ c. (3 ≤ length c) × (length c ≤ n))
                    (clusters_of found.1 (map (λ a. a.article_id) articles)))
                (length-ids articles) sizes),
        )
  ]
