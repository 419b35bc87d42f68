-- ===== src/Store/PipelineRows.antt =====
-- crates/domain/src/models/{reflection,outbox,event,memory,context_snapshot,artifact}.rs: the rows of the
-- reflection, outbox, event, memory, snapshot and artifact tables.
use Prim.Native.String.{String}
use sulix_intelligence.Prelude.{ℕ, I64, Option}

pub record Reflection (F : Type 0) : Type 0 where
  pub id : I64
  pub decision_id : I64
  pub outcome_id : Option I64
  pub job_id : Option String
  pub status : String
  pub artifact_key : Option String
  pub result : Option String
  pub quality_score : Option F
  pub generator_version : Option String
  pub lessons_count : I64
  pub rules_count : I64
  pub generated_by : String
  pub retry_count : I64
  pub last_error : Option String
  pub started_at : Option I64
  pub lease_until : Option I64
  pub created_at : I64
  pub updated_at : I64

pub record NewReflection : Type 0 where
  pub decision_id : I64
  pub outcome_id : Option I64
  pub job_id : Option String
  pub status : String

pub record UpdateReflection (F : Type 0) : Type 0 where
  pub id : I64
  pub status : String
  pub result : Option String
  pub quality_score : Option F
  pub artifact_key : Option String
  pub lessons_count : Option I64
  pub rules_count : Option I64
  pub retry_count : Option I64
  pub last_error : Option String
  pub started_at : Option I64
  pub lease_until : Option I64

pub record OutboxEntry : Type 0 where
  pub id : I64
  pub object_type : String
  pub object_key : String
  pub payload : String
  pub status : String
  pub created_at : I64
  pub retry_count : I64

pub record NewOutbox : Type 0 where
  pub object_type : String
  pub object_key : String
  pub payload : String

pub record EventIndexEntry : Type 0 where
  pub id : I64
  pub event_id : String
  pub aggregate_type : String
  pub aggregate_id : String
  pub event_type : String
  pub object_key : String
  pub occurred_at : I64
  pub created_at : I64

pub record Memory (F : Type 0) : Type 0 where
  pub id : I64
  pub memory_type : String
  pub memory_origin : String
  pub statement : String
  pub confidence : F
  pub stability_score : Option F
  pub confidence_updated_at : Option I64
  pub memory_sources : Option String
  pub artifact_key : Option String
  pub status : String
  pub usage_count : I64
  pub validation_count : I64
  pub promoted_at : I64
  pub deprecated_at : Option I64
  pub last_used_at : Option I64
  pub created_at : I64

pub record NewMemory (F : Type 0) : Type 0 where
  pub memory_type : String
  pub memory_origin : String
  pub statement : String
  pub confidence : F
  pub stability_score : Option F
  pub memory_sources : Option String
  pub artifact_key : Option String
  pub status : String

pub record ContextSnapshot (F : Type 0) : Type 0 where
  pub id : String
  pub query : String
  pub intent : String
  pub domain : Option String
  pub engine_version : String
  pub context_json : String
  pub object_key : Option String
  pub object_size : Option I64
  pub evidence_refs : Option String
  pub confidence : F
  pub user_scope : Option String
  pub created_at : I64

pub record NewContextSnapshot (F : Type 0) : Type 0 where
  pub id : String
  pub query : String
  pub intent : String
  pub domain : Option String
  pub context_json : String
  pub object_key : Option String
  pub object_size : Option I64
  pub evidence_refs : Option String
  pub confidence : F
  pub user_scope : Option String

pub record NewArtifact : Type 0 where
  pub artifact_type : String
  pub entity_id : I64
  pub r2_key : String
  pub schema_version : String
  pub model : Option String
  pub pipeline_version : String
  pub metadata : Option String

pub record ArtifactEntry : Type 0 where
  pub id : I64
  pub artifact_type : String
  pub entity_id : I64
  pub r2_key : String
  pub schema_version : String
  pub model : Option String
  pub pipeline_version : String
  pub metadata : Option String
  pub created_at : I64

pub record ArtifactRecord : Type 0 where
  pub id : I64
  pub artifact_type : String
  pub artifact_date : String
  pub object_key : String
  pub schema_version : ℕ
  pub content_hash : Option String
  pub size_bytes : Option I64
  pub metadata : Option String
  pub created_at : I64

pub record ArtifactData : Type 0 where
  pub id : I64
  pub artifact_type : String
  pub entity_id : I64
  pub r2_key : String
  pub schema_version : String
  pub model : Option String
  pub pipeline_version : String
  pub metadata : Option String
  pub created_at : I64
