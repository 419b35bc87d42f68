-- ===== src/EventStore/Log.antt =====
-- crates/infrastructure/src/event_log.rs: the event log of the domain over an event store.
use Prim.Native.String.{String}
use sulix_intelligence.Prelude.{
  ℕ, ◌*◌, ◌%◌, ◌^◌, List, [], ◌∷◌, Mut, ◌>>◌, return, mapping, bytes, xor,
}
use sulix_intelligence.Reflection.Ports.{DomainEvent}
use sulix_intelligence.Reflection.Types.{EventPayload}
use sulix_intelligence.EventStore.Types.{EventEnvelope, EventStore, error_text}
use sulix_intelligence.EventStore.Keys.{format_id}

abbrev fnv : ℕ → List ℕ → ℕ
fnv hash [] = hash
fnv hash (byte ∷ bs) = fnv (xor 64 hash byte * 1099511628211 % 2 ^ 64) bs

unfoldable pub seq_for_aggregate : String → ℕ
seq_for_aggregate aggregate_id = fnv 14695981039346656037 (bytes aggregate_id)

module _ {F J : Type 0} where
  -- The envelope of a domain event, with its payload as JSON.
  unfoldable pub envelope_of : (EventPayload F → J) → DomainEvent F → EventEnvelope J
  unfolding format_id seq_for_aggregate
  envelope_of to_json event = record {
    schema_version = 1;
    event_id = format_id event.occurred_at (seq_for_aggregate event.aggregate_id);
    event_version = 1;
    aggregate = record { aggregate_type = event.aggregate_type; aggregate_id = event.aggregate_id };
    event_type = event.event_type;
    payload = to_json event.payload;
    metadata = record { actor = "system"; source = "reflection_engine" };
    correlation_id = event.correlation_id;
    causation_id = "";
    occurred_at = event.occurred_at;
    created_at = event.occurred_at;
  }

module _ {F J St : Type 0} where
  -- `EventLog::append`: the error is the text of the event store's.
  unfoldable pub append :
      (EventPayload F → J) → EventStore J St → DomainEvent F → Mut St String (Unit {0})
  unfolding envelope_of
  append to_json inner event =
      mapping error_text (inner.append_event (envelope_of to_json event)) >> return tt
