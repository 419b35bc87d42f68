-- ===== src/Tests/Signals.antt =====
-- The discovery of signals and the run of the signal engine, on concrete articles.
use Prim.Native.String.{String}
use sulix_intelligence.Prelude.{
  ℕ, I64, ◌≡◌, ◌≤◌, refl, arith, List, [], ◌∷◌, All, length, none, some, ok, milli,
}
use sulix_intelligence.Signals.Models.{SignalCandidate, EmbeddedArticle, entity, created}
use sulix_intelligence.Signals.Ports.{
  SignalPersistence, SemanticQuery, DiscoveryContext, SignalDiscovery, SignalEventLog, SignalSource,
}
use sulix_intelligence.Signals.Clustering.{SimilarityEdge, cluster_by_similarity, arrange}
use sulix_intelligence.Signals.Clustering.Partition.{ArePartition}
use sulix_intelligence.Signals.Clustering.Components.{Linked, cluster_by_similarity-components}
use sulix_intelligence.Signals.Clustering.Sizes.{ShrinksFrom, cluster_by_similarity-sizes}
use sulix_intelligence.Signals.Sources.{semantic_candidates}
use sulix_intelligence.Signals.Sources.Semantic.{IsClusterOf, semantic_candidates-sizes}
use sulix_intelligence.Signals.Engine.{SignalEngineReport, SignalJson, run, collect, empty_report}
use sulix_intelligence.Signals.Engine.Counters.{Counts, IsReliable}
use sulix_intelligence.Signals.Engine.Report.{Answer, AreAnswers, new_threads, changes, run-Counts}

abbrev link : I64 → I64 → ℕ → SimilarityEdge ℕ
link a b s = record { article_a = a; article_b = b; similarity = s }

abbrev links : List (SimilarityEdge ℕ)
links = link 30 20 900 ∷ link 20 50 800 ∷ link 10 40 800 ∷ link 10 30 100 ∷ []

abbrev articles : List I64
articles = 10 ∷ 50 ∷ 40 ∷ 30 ∷ 20 ∷ []

clusters_run :
    cluster_by_similarity 5 links articles 750 2 ≡ some ((20 ∷ 30 ∷ 50 ∷ []) ∷ (10 ∷ 40 ∷ []) ∷ [])
unfolding cluster_by_similarity
clusters_run = refl

cluster_by_similarity-components_example :
    (raw : List (List ℕ)) × (cluster_by_similarity 5 links articles 750 2
      ≡ some (arrange articles 2 raw))
    × ArePartition (Linked links articles 750) 5 raw
cluster_by_similarity-components_example =
    cluster_by_similarity-components 5 links articles 750 2 (omega arith)

cluster_by_similarity-sizes_example :
    (cs : List (List I64)) × (cluster_by_similarity 5 links articles 750 2 ≡ some cs)
    × All (λ c. (2 ≤ length c) × (length c ≤ 5)) cs
    × ShrinksFrom 5 cs
cluster_by_similarity-sizes_example =
    cluster_by_similarity-sizes 5 links articles 750 2 (omega arith)

-- An index in which every article resembles the articles 1 and 2. The state counts the calls.
abbrev index : SemanticQuery ℕ ℕ
index = record {
  find_similar = λ id k min s. (
    ok (record { vector_id = "1"; score = 900 } ∷ record { vector_id = "2"; score = 800 } ∷ []),
    s,
  );
}

abbrev embedded : List EmbeddedArticle
embedded =
    record { article_id = 1; vector_id = "1" }
    ∷ record { article_id = 2; vector_id = "2" }
    ∷ record { article_id = 3; vector_id = "3" }
    ∷ []

semantic_candidates-sizes_example :
    (cs : List (SignalCandidate ℕ)) × (t : ℕ) × (semantic_candidates
        (λ ids. "semantic:1")
        index
        embedded
        0
      ≡ (ok cs, t))
    × All (IsClusterOf 3) cs
semantic_candidates-sizes_example =
    semantic_candidates-sizes (λ ids. "semantic:1") index embedded 0 (λ id k min s. (_, s, refl))

-- Threads without rows: each upsert makes a new one.
abbrev threads : SignalPersistence ℕ ℕ
threads = record {
  upsert_signal_thread =
      λ key anchor title status method score s. (ok (record { id = s; mutation = created }), s);
  latest_instance_fingerprint = λ id s. (ok none, s);
  append_signal_instance = λ id score impact trend articles sources avg entity s. (ok s, s);
  update_signal_lifecycle = λ now s. (ok tt, s);
}

threads-IsReliable : IsReliable threads
threads-IsReliable = record {
  upserts = λ key anchor title status method score s. (_, s, refl);
  appends = λ id score impact trend articles sources avg entity s. (_, s, refl);
  updates = λ now s. (_, s, refl);
}

abbrev log : SignalEventLog String ℕ
log = record { append = λ e n s. (ok tt, s); load = λ id limit s. (ok [], s) }

abbrev candidate : SignalCandidate ℕ
candidate = record {
  signal_key = "entity:7";
  anchor_entity_id = some 7;
  title = "Rust";
  status = "active";
  discovery_method = entity;
  discovery_score = some 800;
  score = 800;
  trend = "rising";
  article_count = 4;
  source_count = 2;
  avg_score = 700;
  evidence = [];
  related_entities = [];
}

abbrev one_source : SignalSource ℕ ℕ
one_source ctx s = (ok (candidate ∷ []), s)

abbrev rows : SignalDiscovery ℕ ℕ
rows = record {
  entity_signal_candidates = λ now days limit min_articles min_sources s. (ok [], s);
  recent_embedded_articles = λ now days limit s. (ok embedded, s);
}

abbrev texts : SignalJson ℕ String
texts = record { score_changed = λ c impact. impact; created_payload = λ key. key }

run-Counts_example :
    let ctx : DiscoveryContext ℕ ℕ = record { discovery = rows; semantic = none; now = 100 } in
    let candidates = (collect ctx (one_source ∷ []) 5).0 in
    (xs : List (Answer ℕ)) × (b : SignalEngineReport) × (t : ℕ) × (run texts threads
        (some log)
        100
        rows
        none
        (one_source ∷ [])
        5
      ≡ (ok b, t))
    × AreAnswers texts threads
        (some log)
        100
        candidates
        empty_report
        (collect ctx (one_source ∷ []) 5).1
        xs
    × Counts (some log) (length candidates) (new_threads xs) (changes candidates xs) empty_report b
    × (b.lifecycle_transitions ≡ 1)
run-Counts_example =
    run-Counts texts threads (some log) 100 rows none (one_source ∷ []) 5 threads-IsReliable
