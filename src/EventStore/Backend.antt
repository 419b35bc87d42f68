-- ===== src/EventStore/Backend.antt =====
-- crates/event-store/src/{r2_backend,noop}.rs: the event store over the outbox, the event index and the object
-- archive, and the one that drops everything. The index is that of the database, which production runs on.
use Prim.Native.String.{String, ◌++◌ as text_append}
use sulix_intelligence.Prelude.{
  ℕ, List, [], ◌∷◌, ◌++◌, Option, none, some, Result, ok, err, map_err, Mut, ◌>>=◌, return, lift,
  mapping, on_first, is_empty, sort_by, lt_i64, take, if◌then◌else◌,
}
use sulix_intelligence.Store.PipelineRows.{EventIndexEntry}
use sulix_intelligence.Store.Memory.{MemoryStore}
use sulix_intelligence.Store.Memory.Outbox.{insert_outbox}
use sulix_intelligence.Store.EventIndex.{insert_event_index, find_event_keys}
use sulix_intelligence.ObjectStore.{ObjectStore, ObjectStoreError}
use sulix_intelligence.EventStore.Types.{
  EventEnvelope, EventStoreError, serialisation, from_store, EventStore,
}
use sulix_intelligence.EventStore.Keys.{event}

-- `serde_json` on envelopes.
pub record EnvelopeJson (J : Type 0) : Type 0 where
  pub to_string : EventEnvelope J → Result String String
  pub from_text : String → Option (EventEnvelope J)

abbrev pub event_object_type : String → String
event_object_type aggregate_type = text_append "event:" aggregate_type

module _ {J : Type 0} (json : EnvelopeJson J) where
  -- What a read of an object adds to the events: a missing one and a failed read add none.
  abbrev pub parsed : Result ObjectStoreError (Option String) → List (EventEnvelope J)
  parsed (ok (some text)) = elim (json.from_text text) [ none ↦ [] | some e ↦ e ∷ [] ]
  parsed (ok none) = []
  parsed (err e) = []

module _ {J B : Type 0} (json : EnvelopeJson J) where
  -- The loop over the rows of the index.
  unfoldable pub read_all : ObjectStore B → List EventIndexEntry → B → List (EventEnvelope J) × B
  read_all objects [] b = ([], b)
  read_all objects (row ∷ rows) b =
      let (r, b') = objects.read_object row.object_key b in
      let (events, b'') = read_all objects rows b' in (parsed json r ++ events, b'')

module _ {J F B : Type 0} (json : EnvelopeJson J) where
  unfoldable pub append_event : EventEnvelope J → Mut (MemoryStore F × B) EventStoreError String
  unfolding event insert_outbox insert_event_index
  append_event e = do
    let object_key = event e.aggregate.aggregate_type e.occurred_at e.event_id
    payload ← lift (map_err serialisation (json.to_string e))
    _ ← mapping from_store (
        on_first (
          insert_outbox (record {
            object_type = event_object_type e.aggregate.aggregate_type;
            object_key = object_key;
            payload = payload;
          })))
    _ ← mapping from_store (
        on_first (
          insert_event_index e.event_id e.aggregate.aggregate_type e.aggregate.aggregate_id
            e.event_type object_key e.occurred_at))
    return e.event_id

  unfoldable pub load_events :
      ObjectStore B
      → String
      → String
      → ℕ
      → Mut (MemoryStore F × B) EventStoreError (List (EventEnvelope J))
  unfolding read_all
  load_events objects aggregate_type aggregate_id limit = do
    rows ← mapping from_store (on_first (find_event_keys aggregate_type aggregate_id limit))
    if is_empty rows then return [] else (λ (s, b).
        let (events, b') = read_all json objects rows b in
        (ok (take limit (sort_by (λ e f. lt_i64 f.occurred_at e.occurred_at) events)), (s, b')))

  unfoldable pub r2_backend : ObjectStore B → EventStore J (MemoryStore F × B)
  unfolding append_event load_events
  r2_backend objects = record { append_event = append_event; load_events = load_events objects }

module _ {J St : Type 0} where
  -- `NoopEventStore`
  unfoldable pub noop_event_store : EventStore J St
  noop_event_store = record {
    append_event = λ e. return "noop";
    load_events = λ aggregate_type aggregate_id limit. return [];
  }
