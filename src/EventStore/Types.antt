-- ===== src/EventStore/Types.antt =====
-- crates/event-store/src/lib.rs: the event envelope, the errors and the port. `J` stands for a `serde_json::Value`,
-- and `St` for the state behind the port.
use Prim.Native.String.{String, ◌++◌}
use sulix_intelligence.Prelude.{ℕ, I64, List, Mut}
use sulix_intelligence.Store.Error.{StoreError}
use sulix_intelligence.Store.Error as Store
use sulix_intelligence.ObjectStore.{ObjectStoreError}
use sulix_intelligence.ObjectStore as Objects

pub record AggregateRef : Type 0 where
  pub aggregate_type : String
  pub aggregate_id : String

pub record EventMetadata : Type 0 where
  pub actor : String
  pub source : String

pub record EventEnvelope (J : Type 0) : Type 0 where
  pub schema_version : I64
  pub event_id : String
  pub event_version : I64
  pub aggregate : AggregateRef
  pub event_type : String
  pub payload : J
  pub metadata : EventMetadata
  pub correlation_id : String
  pub causation_id : String
  pub occurred_at : I64
  pub created_at : I64

pub data EventStoreError : Type 0 where
  store serialisation : String → EventStoreError

-- The `Display` text.
abbrev pub error_text : EventStoreError → String
error_text (store e) = "store error: " ++ e
error_text (serialisation e) = "serialisation error: " ++ e

-- The conversions of `?`.
abbrev pub from_store : StoreError → EventStoreError
from_store e = store (Store.error_text e)

abbrev pub from_object_store : ObjectStoreError → EventStoreError
from_object_store e = store (Objects.error_text e)

pub record EventStore (J St : Type 0) : Type 0 where
  pub append_event : EventEnvelope J → Mut St EventStoreError String
  pub load_events : String → String → ℕ → Mut St EventStoreError (List (EventEnvelope J))
