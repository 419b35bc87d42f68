-- ===== src/EventStore/Archive.antt =====
-- crates/worker-entry/src/jobs/archive.rs: the job that drains the outbox into the object archive, over the
-- outbox of the in-memory store, whose methods are those of the database, and the index of the database. Failures of
-- the database and the log lines are left out.
pub mod Progress
pub mod Blocked
use Prim.Native.String.{String}
use sulix_intelligence.Prelude.{
  ℕ, I64, List, [], ◌∷◌, Option, none, some, Result, ok, err, is_ok, Bool, true, false, starts_with,
  is_empty, if◌then◌else◌,
}
use sulix_intelligence.Store.Error.{StoreError}
use sulix_intelligence.Store.PipelineRows.{OutboxEntry}
use sulix_intelligence.Store.Memory.{MemoryStore}
use sulix_intelligence.Store.Memory.Outbox.{drain_outbox, mark_outbox_archived, mark_outbox_failed}
use sulix_intelligence.Store.EventIndex.{insert_event_index}
use sulix_intelligence.ObjectStore.{ObjectStore}
use sulix_intelligence.EventStore.Types.{EventEnvelope}
use sulix_intelligence.EventStore.Backend.{EnvelopeJson}

module _ {B : Type 0} (objects : ObjectStore B) where
  -- Whether the write succeeded.
  abbrev pub handle_archive_outbox : OutboxEntry → B → Bool × B
  handle_archive_outbox entry b =
      let (r, b') = objects.write_object entry.object_key entry.payload b in (is_ok r, b')

module _ {J F B : Type 0} (json : EnvelopeJson J) (objects : ObjectStore B) where
  -- The store after the index row of the event, whether or not its insertion succeeds.
  abbrev pub indexed : OutboxEntry → EventEnvelope J → MemoryStore F → MemoryStore F
  indexed entry event s =
      (insert_event_index event.event_id event.aggregate.aggregate_type event.aggregate.aggregate_id
        event.event_type entry.object_key event.occurred_at s).1

  abbrev pub handle_event_outbox : OutboxEntry → MemoryStore F × B → Bool × (MemoryStore F × B)
  handle_event_outbox entry (s, b) = elim (json.from_text entry.payload) [
    | none ↦ (false, (s, b))
    | some event ↦
        let (written, b') = handle_archive_outbox objects entry b in
        (written, (indexed entry event s, b'))
  ]

  abbrev pub handle : OutboxEntry → MemoryStore F × B → Bool × (MemoryStore F × B)
  handle entry (s, b) =
      if starts_with entry.object_type "event:"
      then handle_event_outbox entry (s, b)
      else (let (written, b') = handle_archive_outbox objects entry b in (written, (s, b')))

  -- The body of the loop over the drained entries.
  unfoldable pub archive_entry : OutboxEntry → MemoryStore F × B → MemoryStore F × B
  unfolding insert_event_index mark_outbox_archived mark_outbox_failed
  archive_entry entry t =
      let (success, (s, b)) = handle entry t in
      if success
      then ((mark_outbox_archived entry.id s).1, b)
      else ((mark_outbox_failed entry.id s).1, b)

  unfoldable pub archive_entries : List OutboxEntry → MemoryStore F × B → MemoryStore F × B
  unfolding archive_entry
  archive_entries [] t = t
  archive_entries (entry ∷ entries) t = archive_entries entries (archive_entry entry t)

  abbrev pub drained : Result StoreError (List OutboxEntry) → MemoryStore F × B → MemoryStore F × B
  drained (ok entries) t = if is_empty entries then t else archive_entries entries t
  drained (err e) t = t

  unfoldable pub archive_outbox : MemoryStore F × B → MemoryStore F × B
  unfolding drain_outbox archive_entries
  archive_outbox (s, b) = let (r, s') = drain_outbox 100 s in drained r (s', b)
