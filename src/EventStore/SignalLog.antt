-- ===== src/EventStore/SignalLog.antt =====
-- crates/infrastructure/src/signal_event_log.rs: the event log of the signal engine over an event store.
use sulix_intelligence.Prelude.{ℕ, map, ◌>>◌, ◌>>=◌, return, mapping}
use sulix_intelligence.Signals.Models.{SignalError, event_log}
use sulix_intelligence.Signals.Ports.{SignalEvent, SignalEventLog}
use sulix_intelligence.EventStore.Types.{EventEnvelope, EventStore, EventStoreError, error_text}
use sulix_intelligence.EventStore.Keys.{format_id}

module _ {J : Type 0} where
  unfoldable pub signal_envelope : SignalEvent J → ℕ → EventEnvelope J
  unfolding format_id
  signal_envelope event sequence = record {
    schema_version = 1;
    event_version = 1;
    event_id = format_id event.occurred_at sequence;
    correlation_id = "";
    causation_id = "";
    aggregate = record { aggregate_type = "signal_thread"; aggregate_id = event.aggregate_id };
    event_type = event.event_type;
    payload = event.payload;
    metadata = record { actor = "system"; source = "cron" };
    occurred_at = event.occurred_at;
    created_at = event.occurred_at;
  }

  abbrev pub signal_event_of : EventEnvelope J → SignalEvent J
  signal_event_of e = record {
    event_type = e.event_type;
    aggregate_id = e.aggregate.aggregate_id;
    payload = e.payload;
    occurred_at = e.occurred_at;
  }

abbrev pub to_event_log : EventStoreError → SignalError
to_event_log e = event_log (error_text e)

module _ {J St : Type 0} where
  -- `EventStoreSignalLog` over the inner store.
  unfoldable pub event_store_signal_log : EventStore J St → SignalEventLog J St
  unfolding signal_envelope
  event_store_signal_log inner = record {
    append = λ event sequence.
        mapping to_event_log (inner.append_event (signal_envelope event sequence)) >> return tt;
    load = λ aggregate_id limit. do
      events ← mapping to_event_log (inner.load_events "signal_thread" aggregate_id limit)
      return (map signal_event_of events);
  }
