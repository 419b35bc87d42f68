-- ===== src/EventStore/RoundTrip.antt =====
-- crates/event-store/src/r2_backend.rs with crates/worker-entry/src/jobs/archive.rs: an event that was appended and
-- archived is loaded again.
use Prim.Native.String.{String}
use sulix_intelligence.Prelude.{
  ℕ, suc, I64, ◌≡◌, refl, ap, ◌∙◌, arith, List, [], ◌∷◌, ◌++◌, Bool, true, some, ok, add_i64,
  filterb, filterb-append, take, starts_with-append, str_eq, lt_i64, eq_refl, get, insert, sort_by,
  any, false,
}
use sulix_intelligence.Store.PipelineRows.{OutboxEntry, EventIndexEntry}
use sulix_intelligence.Store.Memory.{MemoryStore}
use sulix_intelligence.Store.Memory.Outbox.{
  is_pending, insert_outbox, drain_outbox, mark_outbox_archived,
}
use sulix_intelligence.Store.EventIndex.{has_event_id, is_of, insert_event_index, find_event_keys}
use sulix_intelligence.ObjectStore.Memory.{
  BlobStore, blob_store, write_object, read_object, get-insert_text,
}
use sulix_intelligence.EventStore.Types.{EventEnvelope}
use sulix_intelligence.EventStore.Backend.{
  EnvelopeJson, append_event, load_events, parsed, read_all, event_object_type,
}
use sulix_intelligence.EventStore.Keys.{event}
use sulix_intelligence.Store.OutboxDrain.{queued, take-all}
use sulix_intelligence.Store.Memory.Decisions.{stamp}
use sulix_intelligence.EventStore.Archive.{
  handle, handle_event_outbox, archive_entry, archive_entries, archive_outbox, drained,
}

module _ {J : Type 0} where
  abbrev index_row : EventEnvelope J → I64 → EventIndexEntry
  index_row e id = record {
    id = id;
    event_id = e.event_id;
    aggregate_type = e.aggregate.aggregate_type;
    aggregate_id = e.aggregate.aggregate_id;
    event_type = e.event_type;
    object_key = event e.aggregate.aggregate_type e.occurred_at e.event_id;
    occurred_at = e.occurred_at;
    created_at = stamp;
  }

module _ {J F : Type 0} where
  -- The entry that an append puts into the outbox.
  abbrev entry_of : EventEnvelope J → String → MemoryStore F → OutboxEntry
  entry_of e text s = queued s.next_outbox_id (record {
    object_type = event_object_type e.aggregate.aggregate_type;
    object_key = event e.aggregate.aggregate_type e.occurred_at e.event_id;
    payload = text;
  })

  abbrev indexed_store : EventEnvelope J → MemoryStore F → MemoryStore F
  indexed_store e s = record s {
    next_event_archive_id = add_i64 s.next_event_archive_id 1;
    event_archive = s.event_archive ++ index_row e s.next_event_archive_id ∷ [];
  }

  abbrev appended : EventEnvelope J → String → MemoryStore F → MemoryStore F
  appended e text s = indexed_store e (record s {
    next_outbox_id = add_i64 s.next_outbox_id 1;
    outbox = s.outbox ++ entry_of e text s ∷ [];
  })

  abbrev archived : EventEnvelope J → String → MemoryStore F → MemoryStore F
  archived e text s = (mark_outbox_archived (entry_of e text s).id (appended e text s)).1

any-last :
    {A : Type 0} (p : A → Bool) (xs : List A) (x : A) → p x ≡ true → any p (xs ++ x ∷ []) ≡ true
any-last p [] x h = rw h refl
any-last p (y ∷ ys) x h = ground (arith, any-last p ys x h)

module _ {J F : Type 0} (json : EnvelopeJson J) where
  append_event-appended :
      (e : EventEnvelope J) (text : String) (s : MemoryStore F) (b : BlobStore)
      → json.to_string e ≡ ok text
      → any (has_event_id e.event_id) s.event_archive ≡ false
      → append_event json e (s, b) ≡ (ok e.event_id, (appended e text s, b))
  unfolding append_event insert_outbox insert_event_index
  append_event-appended e text s b printed new = rw (append_event, printed) (rw new refl)

  -- The event has its row, so a second insertion is ignored.
  indexed-again :
      (e : EventEnvelope J) (text : String) (s : MemoryStore F)
      → any (has_event_id e.event_id) (appended e text s).event_archive ≡ true
  indexed-again e text s =
      any-last (has_event_id e.event_id) s.event_archive (index_row e s.next_event_archive_id)
        (eq_refl e.event_id)

module _ {J F : Type 0} (json : EnvelopeJson J) (now : I64) where
  archive_outbox-archived :
      (e : EventEnvelope J) (text : String) (s : MemoryStore F) (b : BlobStore)
      → json.from_text text ≡ some e
      → filterb is_pending s.outbox ≡ []
      → archive_outbox json (blob_store now) (appended e text s, b)
        ≡ (archived e text s, insert str_eq (entry_of e text s).object_key text b)
  unfolding archive_outbox drain_outbox archive_entries archive_entry insert_event_index blob_store
      write_object
  archive_outbox-archived e text s b read idle =
      let entry = entry_of e text s in
      let next : filterb is_pending (s.outbox ++ entry ∷ []) ≡ entry ∷ [] =
        filterb-append is_pending s.outbox (entry ∷ []) ∙ ap (λ es. es ++ entry ∷ []) idle in
      let stored : handle_event_outbox json (blob_store now) entry (appended e text s, b)
          ≡ (true, (appended e text s, insert str_eq entry.object_key text b)) =
        rw (handle_event_outbox, read) (rw (indexed-again json e text s) refl) in
      let handled : handle json (blob_store now) entry (appended e text s, b)
          ≡ (true, (appended e text s, insert str_eq entry.object_key text b)) =
        rw (starts_with-append "event:" e.aggregate.aggregate_type) stored in
      ap (λ es. drained json (blob_store now) (ok (take 100 es)) (appended e text s, b)) next
      ∙ rw (archive_entry, handled) refl

module _ {J : Type 0} (json : EnvelopeJson J) (now : I64) where
  read_one :
      (e : EventEnvelope J) (text key : String) (row : EventIndexEntry)
      (rows : List EventIndexEntry) (b : BlobStore)
      → json.from_text text ≡ some e
      → row.object_key ≡ key
      → (read_all json (blob_store now) (row ∷ rows) (insert str_eq key text b)).0
        ≡ e ∷ (read_all json (blob_store now) rows (insert str_eq key text b)).0
  unfolding read_all blob_store read_object
  read_one e text key row rows b read at =
      let found : get str_eq row.object_key (insert str_eq key text b) ≡ some text =
        ap (λ k. get str_eq k (insert str_eq key text b)) at
        ∙ get-insert_text key key text b
        ∙ ground (arith, eq_refl key) in
      let own : parsed json (ok (some text)) ≡ e ∷ [] = rw (parsed, read) refl in
      rw (read_all, found, own) refl

  read_own :
      (e : EventEnvelope J) (text : String) (i : I64) (b : BlobStore)
      → json.from_text text ≡ some e
      → (read_all json
          (blob_store now)
          (index_row e i ∷ [])
          (insert str_eq (event e.aggregate.aggregate_type e.occurred_at e.event_id) text b)).0
        ≡ e ∷ []
  unfolding read_all
  read_own e text i b read =
      read_one e text (event e.aggregate.aggregate_type e.occurred_at e.event_id) (index_row e i) []
        b read refl

module _ {J : Type 0} where
  own_row :
      (e : EventEnvelope J) (i : I64)
      → filterb (is_of e.aggregate.aggregate_type e.aggregate.aggregate_id) (index_row e i ∷ [])
        ≡ index_row e i ∷ []
  own_row e i = rw (eq_refl e.aggregate.aggregate_type) (rw (eq_refl e.aggregate.aggregate_id) refl)

module _ {J F : Type 0} where
  index_rows :
      (e : EventEnvelope J) (text : String) (s : MemoryStore F)
      → filterb (is_of e.aggregate.aggregate_type e.aggregate.aggregate_id) s.event_archive ≡ []
      → filterb
          (is_of e.aggregate.aggregate_type e.aggregate.aggregate_id)
          (archived e text s).event_archive
        ≡ index_row e s.next_event_archive_id ∷ []
  unfolding mark_outbox_archived
  index_rows e text s fresh =
      let mine = is_of e.aggregate.aggregate_type e.aggregate.aggregate_id in
      let row = index_row e s.next_event_archive_id in
      filterb-append mine s.event_archive (row ∷ [])
      ∙ ap (λ rows. rows ++ filterb mine (row ∷ [])) fresh
      ∙ own_row e s.next_event_archive_id

  find_event_keys-archived :
      (e : EventEnvelope J) (text : String) (limit : ℕ) (s : MemoryStore F)
      → filterb (is_of e.aggregate.aggregate_type e.aggregate.aggregate_id) s.event_archive ≡ []
      → find_event_keys e.aggregate.aggregate_type e.aggregate.aggregate_id
          (suc limit)
          (archived e text s)
        ≡ (ok (index_row e s.next_event_archive_id ∷ []), archived e text s)
  unfolding find_event_keys
  find_event_keys-archived e text limit s fresh =
      let row = index_row e s.next_event_archive_id in
      ap
        (λ rows. (
          ok (take (suc limit) (sort_by (λ a b. lt_i64 b.occurred_at a.occurred_at) rows)),
          archived e text s,
        ))
        (index_rows e text s fresh)
      ∙ ap (λ rows. (ok rows, archived e text s)) (take-all (suc limit) (row ∷ []) (omega arith))

module _ {J F : Type 0} (json : EnvelopeJson J) (now : I64) where
  -- In a store with nothing pending and no index row of the event or of its aggregate, an event that the serializer
  -- prints and reads back is, once appended and archived, what a load of its aggregate gives, and gives once: the
  -- append indexes it, and the archiving does not index it again.
  pub load_events-append_event :
      (e : EventEnvelope J) (text : String) (limit : ℕ) (s : MemoryStore F) (b : BlobStore)
      → json.to_string e ≡ ok text
      → json.from_text text ≡ some e
      → filterb is_pending s.outbox ≡ []
      → any (has_event_id e.event_id) s.event_archive ≡ false
      → filterb (is_of e.aggregate.aggregate_type e.aggregate.aggregate_id) s.event_archive ≡ []
      → (load_events json
          (blob_store now)
          e.aggregate.aggregate_type
          e.aggregate.aggregate_id
          (suc limit)
          (archive_outbox json (blob_store now) (append_event json e (s, b)).1)).0
        ≡ ok (e ∷ [])
  unfolding load_events
  load_events-append_event e text limit s b printed read idle new fresh =
      let found = find_event_keys-archived e text limit s fresh in
      let out : take (suc limit) (e ∷ []) ≡ e ∷ [] = take-all (suc limit) (e ∷ []) (omega arith) in
      rw (append_event-appended json e text s b printed new) (
        rw (archive_outbox-archived json now e text s b read idle) (
          rw (load_events, found)
            (rw (read_own json now e text s.next_event_archive_id b read) (ap ok out))))
