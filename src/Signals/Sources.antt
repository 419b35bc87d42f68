-- ===== src/Signals/Sources.antt =====
-- crates/intelligence/signal-engine/src/source.rs and src/discovery/{converter,similarity}.rs: the candidates from
-- entities and from clusters of similar articles.
pub mod Semantic
use Prim.Native.String.{String, ◌++◌}
use sulix_intelligence.Prelude.{
  ℕ, suc, I64, List, [], ◌∷◌, map, length, filterb, any, Option, none, some, get_or, Bool, true,
  false, ◌&&◌, ◌||◌, not, if◌then◌else◌, ◌==◌, ltb, lt_i64, Float, Mut, ◌>>=◌, return, mapping,
}
use mathlib.Core.List.{◌++◌ as append}
use sulix_intelligence.Prelude.Decimal.{padded, parse_i64}
use sulix_intelligence.Signals.Models.{
  SignalCandidate, EntityCandidate, RelatedEntityRef, EmbeddedArticle, SimilarArticle, semantic,
  entity, error_text,
}
use sulix_intelligence.Signals.Ports.{DiscoveryContext, SemanticQuery, SignalSource}
use sulix_intelligence.Signals.Scoring.{signal_score_v2}
use sulix_intelligence.Signals.Clustering.{SimilarityEdge, ArticleCluster, cluster_by_similarity}

module _ {F : Type 0} where
  abbrev pub related_of : I64 → RelatedEntityRef F
  related_of id = record {
    id = id;
    name = "";
    entity_type = "";
    relation_type = "";
    relation = none;
    confidence = none;
  }

  abbrev pub entity_candidate : EntityCandidate F → SignalCandidate F
  entity_candidate c = record {
    signal_key = "entity:" ++ padded 1 c.entity_id;
    anchor_entity_id = some c.entity_id;
    title = c.entity_name;
    status = "active";
    discovery_method = entity;
    discovery_score = some c.score;
    score = c.score;
    trend = c.trend;
    article_count = c.article_count;
    source_count = c.source_count;
    avg_score = c.avg_score;
    evidence = c.evidence;
    related_entities = map related_of c.related_entity_ids;
  }

module _ {F St : Type 0} where
  unfoldable pub entity_signal_source : SignalSource F St
  entity_signal_source ctx = do
    rows ←
        mapping (λ e. "entity_candidates failed: " ++ error_text e)
          (ctx.discovery.entity_signal_candidates ctx.now 7 50 3 2)
    return (map entity_candidate rows)

abbrev pub contains : List I64 → I64 → Bool
contains ids id = any (λ i. i == id) ids

abbrev pub first_or_zero : List I64 → I64
first_or_zero [] = 0
first_or_zero (id ∷ ids) = id

module _ {F : Type 0} ⦃fl : Float F⦄ where
  abbrev pub sum : F → List F → F
  sum acc [] = acc
  sum acc (x ∷ xs) = sum (fl.add acc x) xs

  abbrev pub avg_pairwise_similarity : List (I64 × I64 × F) → F
  avg_pairwise_similarity [] = fl.ratio 0 1
  avg_pairwise_similarity (e ∷ es) =
      fl.div (sum (fl.ratio 0 1) (map (λ x. x.2) (e ∷ es))) (fl.of_nat (length (e ∷ es)))

  -- `cluster_id` is the text of the standard library's hash of the ids.
  unfoldable pub cluster_to_candidate :
      (List I64 → String) → ArticleCluster → List (SimilarityEdge F) → SignalCandidate F
  unfolding signal_score_v2
  cluster_to_candidate cluster_id cluster edges =
      let ids = cluster.article_ids in
      let cluster_edges =
        map (λ e. (e.article_a, e.article_b, e.similarity))
          (filterb (λ e. contains ids e.article_a && contains ids e.article_b) edges) in
      let avg_sim = avg_pairwise_similarity cluster_edges in
      let v2_score = signal_score_v2 (record {
        avg_similarity = avg_sim;
        entity_focus = fl.ratio 5 10;
        temporal_momentum = fl.ratio 5 10;
        source_diversity = fl.ratio 5 10;
      }) in
      record {
        signal_key = cluster_id ids;
        anchor_entity_id = none;
        title = "cluster:" ++ padded 1 (first_or_zero ids);
        status = "active";
        discovery_method = semantic;
        discovery_score = some v2_score;
        score = v2_score;
        trend = "rising";
        article_count = length ids;
        source_count = 0;
        avg_score = avg_sim;
        evidence = [];
        related_entities = [];
      }

-- The pairs seen so far, and the edges.
abbrev pub Found : Type 0 → Type 0
Found F = List (I64 × I64) × List (SimilarityEdge F)

abbrev pub pair_key : I64 → I64 → I64 × I64
pair_key a b = if lt_i64 a b then (a, b) else (b, a)

abbrev pub has_pair : I64 × I64 → List (I64 × I64) → Bool
has_pair k = any (λ p. p.0 == k.0 && p.1 == k.1)

module _ {F : Type 0} where
  -- A neighbour of an article: itself and a pair that was seen add no edge.
  abbrev pub add_neighbor : I64 → F → I64 → Found F → Found F
  add_neighbor a score neighbor (seen, edges) =
      if neighbor == a || has_pair (pair_key a neighbor) seen then (seen, edges) else (
        pair_key a neighbor ∷ seen,
        append edges (record { article_a = a; article_b = neighbor; similarity = score } ∷ []),
      )

  abbrev pub add_match : I64 → SimilarArticle F → Found F → Found F
  add_match a m found = elim (parse_i64 m.vector_id) [
    | none ↦ found
    | some neighbor ↦ add_neighbor a m.score neighbor found
  ]

  abbrev pub add_matches : I64 → List (SimilarArticle F) → Found F → Found F
  add_matches a [] found = found
  add_matches a (m ∷ ms) found = add_matches a ms (add_match a m found)

module _ {F : Type 0} ⦃fl : Float F⦄ where
  -- The clusters of three articles or more, with fuel for the edges.
  abbrev pub clusters_of : List (SimilarityEdge F) → List I64 → List (List I64)
  clusters_of edges ids =
      get_or (cluster_by_similarity (suc (length edges)) edges ids (fl.ratio 75 100) 3) []

  abbrev pub cluster_candidates :
      (List I64 → String)
      → List EmbeddedArticle
      → List (SimilarityEdge F)
      → List (SignalCandidate F)
  cluster_candidates cluster_id articles edges =
      map (λ c. cluster_to_candidate cluster_id (record { article_ids = c }) edges)
        (clusters_of edges (map (λ a. a.article_id) articles))

module _ {F St : Type 0} ⦃fl : Float F⦄ where
  unfoldable pub find_edges :
      SemanticQuery F St → List EmbeddedArticle → Found F → Mut St String (Found F)
  unfolding parse_i64
  find_edges query [] found = return found
  find_edges query (a ∷ articles) found = do
    matches ←
        mapping (λ e. "semantic query for " ++ a.vector_id ++ ": " ++ error_text e)
          (query.find_similar a.vector_id 20 (fl.ratio 75 100))
    find_edges query articles (add_matches a.article_id matches found)

  abbrev pub semantic_candidates :
      (List I64 → String)
      → SemanticQuery F St
      → List EmbeddedArticle
      → Mut St String (List (SignalCandidate F))
  semantic_candidates cluster_id query articles = if ltb (length articles) 3 then return [] else (do
    found ← find_edges query articles ([], [])
    return (cluster_candidates cluster_id articles found.1))

  unfoldable pub semantic_discovery_source : (List I64 → String) → SignalSource F St
  unfolding find_edges cluster_to_candidate cluster_by_similarity
  semantic_discovery_source cluster_id ctx = elim ctx.semantic [
    | none ↦ return []
    | some query ↦ (do
      articles ←
          mapping (λ e. "recent_embedded_articles failed: " ++ error_text e)
            (ctx.discovery.recent_embedded_articles ctx.now 7 200)
      semantic_candidates cluster_id query articles)
  ]
