-- ===== src/Reflection/Ports.antt =====
-- The ports of the reflection engine: crates/intelligence/reflection-engine/src/repository.rs and generator/trait.rs,
-- and crates/shared-kernel/src/{event_log,artifact_registry}.rs. `St` is the state behind them all.
use Prim.Native.String.{String}
use sulix_intelligence.Prelude.{I64, Option, Mut}
use sulix_intelligence.Reflection.Types.{
  ReflectionError, ReflectionRecord, ReflectionUpdate, DecisionFacts, ReflectionContext,
  ReflectionDraft, EventPayload,
}

pub record ReflectionRepository (F St : Type 0) : Type 0 where
  pub create : I64 → String → Mut St ReflectionError I64
  pub update : ReflectionUpdate F → Mut St ReflectionError (Unit {0})
  pub find_latest_for_decision : I64 → Mut St ReflectionError (Option ReflectionRecord)
  pub load_decision_context : I64 → Mut St ReflectionError (Option (DecisionFacts F))
  pub enqueue_event : String → String → EventPayload F → Mut St ReflectionError (Unit {0})

pub record DomainEvent (F : Type 0) : Type 0 where
  pub event_type : String
  pub aggregate_type : String
  pub aggregate_id : String
  pub payload : EventPayload F
  pub occurred_at : I64
  pub correlation_id : String

pub record ArtifactRef : Type 0 where
  pub artifact_id : I64
  pub artifact_type : String
  pub storage : String
  pub object_key : String
  pub size_bytes : I64
  pub created_at : I64

-- The content is the UTF-8 text whose bytes the source passes.
pub record NewArtifact : Type 0 where
  pub artifact_type : String
  pub owner_type : String
  pub owner_id : String
  pub content : String
  pub content_type : String

-- The generator, the event log and the artifact registry; their errors are texts here, which the engine
-- only passes on or drops.
pub record Services (F St : Type 0) : Type 0 where
  pub generate : ReflectionContext F → Mut St String (ReflectionDraft F)
  pub append : DomainEvent F → Mut St String (Unit {0})
  pub store_artifact : NewArtifact → Mut St String ArtifactRef

-- Texts made by `serde_json` and by the formatting of f64: `{}`, `{:.2}`, the draft and the payload.
pub record Texts (F : Type 0) : Type 0 where
  pub display : F → String
  pub fixed2 : F → String
  pub draft_json : ReflectionDraft F → String
  pub payload_json : EventPayload F → String
