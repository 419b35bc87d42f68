-- ===== src/MemoryEngine/Types.antt =====
-- crates/memory-engine/src/{model,error,repository,candidate}.rs: the data and the port. `F` stands for f64 and `G` for
-- f32.
use Prim.Native.String.{String, ◌++◌}
use sulix_intelligence.Prelude.{ℕ, I64, List, Option, Result, Mut}

pub record PromotionScore (G : Type 0) : Type 0 where
  pub confidence : G
  pub recurrence : G
  pub impact : G
  pub evidence : G
  pub stability : G
  pub total : G

pub record NewMemory (F : Type 0) : Type 0 where
  pub memory_type : String
  pub memory_origin : String
  pub statement : String
  pub confidence : F
  pub stability_score : Option F
  pub memory_sources : Option String
  pub artifact_key : Option String
  pub status : String

pub record MemoryEventRef : Type 0 where
  pub event_id : String
  pub aggregate_id : String
  pub object_key : String
  pub occurred_at : I64

pub record MemoryCandidate (F : Type 0) : Type 0 where
  pub event_id : String
  pub reflection_id : String
  pub decision_id : String
  pub artifact_key : String
  pub quality_score : F
  pub lesson_count : I64
  pub rule_count : I64
  pub occurred_at : I64

pub data MemoryError : Type 0 where
  persistence : String → MemoryError

-- The `Display` text.
unfoldable pub memory_error_text : MemoryError → String
memory_error_text (persistence e) = "persistence error: " ++ e

-- The payload of an event is its JSON text.
pub record MemoryRepository (F St : Type 0) : Type 0 where
  pub create_memory : NewMemory F → Mut St MemoryError I64
  pub enqueue_event : String → String → String → Mut St MemoryError (Unit {0})
  pub list_reflection_events : ℕ → Mut St MemoryError (List MemoryEventRef)

-- The platform's key-value cache. `put` makes a builder; its execution is the change.
pub record Cache (K : Type 0) : Type 0 where
  pub get : String → K → Result String (Option String)
  pub put : String → String → Result String (K → K)

-- Texts by the standard library and by `serde_json`, and the casts between f64 and f32.
pub record MemoryTexts (F G : Type 0) : Type 0 where
  pub trim : String → String
  pub replace : String → String → String → String
  pub fixed2 : G → String
  pub sources_json : String → String
  pub event_json : String → String → G → String → String
  pub archive_json : String → String → PromotionScore G → MemoryCandidate F → I64 → String
  pub narrow : F → G
  pub widen : G → F
