-- ===== src/MemoryEngine/Worker.antt =====
-- crates/memory-engine/src/{candidate,promotion,worker}.rs: the consolidation run. The state is that behind the
-- repository with that of the cache; the log lines are left out.
use Prim.Native.String.{String, ◌++◌}
use sulix_intelligence.Prelude.{
  ℕ, ◌+◌, I64, sub_i64, lt_i64, List, [], ◌∷◌, map, filterb, is_empty, Option, none, some, Bool,
  true, false, Float, if◌then◌else◌, Mut, Result, ok, err, ◌>>=◌, ◌>>◌, return, mapping, ignoring,
}
use sulix_intelligence.Prelude.Decimal.{padded, parse_i64}
use sulix_intelligence.Ids.{memory_id}
use sulix_intelligence.MemoryEngine.Types.{
  PromotionScore, MemoryEventRef, MemoryCandidate, memory_error_text, MemoryRepository, Cache,
  MemoryTexts,
}
use sulix_intelligence.MemoryEngine.Evaluator.{promotion, review, archive, evaluate}

abbrev default_batch_size : ℕ
default_batch_size = 50

abbrev pub last_run : String
last_run = "memory:last_run"

module _ {F : Type 0} ⦃f64 : Float F⦄ where
  unfoldable pub candidate_of : MemoryEventRef → MemoryCandidate F
  candidate_of r = record {
    event_id = r.event_id;
    reflection_id = r.aggregate_id;
    decision_id = "";
    artifact_key = r.object_key;
    quality_score = f64.ratio 0 1;
    lesson_count = 0;
    rule_count = 0;
    occurred_at = r.occurred_at;
  }

module _ {F S : Type 0} ⦃f64 : Float F⦄ (repo : MemoryRepository F S) where
  unfoldable pub extract_candidates : I64 → ℕ → Mut S String (List (MemoryCandidate F))
  unfolding candidate_of memory_error_text
  extract_candidates since limit = do
    events ←
        mapping (λ e. "list_reflection_events failed: " ++ memory_error_text e)
          (repo.list_reflection_events limit)
    return (map candidate_of (filterb (λ r. lt_i64 since r.occurred_at) events))

module _ {F G S : Type 0} ⦃f64 : Float F⦄ ⦃f32 : Float G⦄ (texts : MemoryTexts F G)
    (repo : MemoryRepository F S) where
  unfoldable pub promote : I64 → MemoryCandidate F → PromotionScore G → String → Mut S String I64
  unfolding memory_error_text memory_id
  promote now candidate score statement = do
    let artifact_key =
        "memory/insights/" ++ texts.replace candidate.reflection_id "REF" "MEM" ++ ".json"
    id ←
        mapping (λ e. "create_memory failed: " ++ memory_error_text e)
          (repo.create_memory (record {
            memory_type = "strategic_pattern";
            memory_origin = "derived";
            statement = statement;
            confidence = texts.widen score.total;
            stability_score = some (texts.widen score.stability);
            memory_sources = some (texts.sources_json candidate.reflection_id);
            artifact_key = some artifact_key;
            status = "active";
          }))
    ignoring (
        repo.enqueue_event "event:memory" ("mem_" ++ padded 1 now ++ "_" ++ padded 1 id)
          (texts.event_json (memory_id id) candidate.reflection_id score.total artifact_key))
    ignoring (
        repo.enqueue_event "archive:memory" artifact_key
          (texts.archive_json (memory_id id) statement score candidate now))
    return id

  -- One candidate: the arguments of `evaluate` are constants.
  unfoldable pub consolidate : I64 → MemoryCandidate F → S → S
  unfolding evaluate promote
  consolidate now candidate s =
      elim (evaluate texts (f64.ratio 75 100) true true true (f32.ratio 5 10) (f32.ratio 5 10)
        (f32.ratio 5 10)) [
          | promotion score ↦
              (promote now candidate score "Consolidated memory from reflection" s).1
          | review score ↦ s
          | archive reason ↦ s
        ]

  unfoldable pub consolidate_all : (ℕ → I64) → List (MemoryCandidate F) → S → S
  unfolding consolidate
  consolidate_all clock [] s = s
  consolidate_all clock (c ∷ cs) s =
      consolidate_all (λ k. clock (k + 1)) cs (consolidate (clock 0) c s)

-- The time of the last run, if the cache has one that reads as a number.
unfoldable pub last_time : (String → String) → Result String (Option String) → Option I64
last_time trim (ok (some val)) = parse_i64 (trim val)
last_time trim (ok none) = none
last_time trim (err e) = none

abbrev pub is_recent : I64 → Option I64 → Bool
is_recent now none = false
is_recent now (some ts) = lt_i64 (sub_i64 now ts) 86400

-- A builder that is executed, and one that is dropped.
abbrev executed : {K : Type 0} → Result String (K → K) → K → K
executed (ok put) k = put k
executed (err e) k = k

abbrev dropped : {K : Type 0} → Result String (K → K) → K → K
dropped builder k = k

module _ {F G S K : Type 0} ⦃f64 : Float F⦄ ⦃f32 : Float G⦄ (texts : MemoryTexts F G)
    (repo : MemoryRepository F S) (cache : Cache K) where
  abbrev finish : I64 → (ℕ → I64) → K → Result String (List (MemoryCandidate F)) × S → S × K
  finish now clock k (err e, s) = (s, k)
  finish now clock k (ok candidates, s) =
      if is_empty candidates then (s, dropped (cache.put last_run (padded 1 now)) k) else (
        consolidate_all texts repo clock candidates s,
        executed (cache.put last_run (padded 1 now)) k,
      )

  -- `clock` is what each promotion reads.
  unfoldable pub process_pending : I64 → (ℕ → I64) → S × K → S × K
  unfolding consolidate_all last_time
  process_pending now clock (s, k) =
      if is_recent now (last_time texts.trim (cache.get last_run k))
      then (s, k)
      else finish now clock k (extract_candidates repo (sub_i64 now 604800) default_batch_size s)
