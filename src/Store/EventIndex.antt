-- ===== src/Store/EventIndex.antt =====
-- crates/store/src/d1/event_archive.rs with migrations/0022_event_archive_index.sql: the index of events as the
-- database keeps it, on the same table as the in-memory store.
use Prim.Native.String.{String}
use sulix_intelligence.Prelude.{
  ℕ, I64, List, [], ◌∷◌, ◌++◌, Bool, ok, Mut, add_i64, any, filterb, take, sort_by, lt_i64, str_eq,
  ◌&&◌, if◌then◌else◌,
}
use sulix_intelligence.Store.Error.{StoreError}
use sulix_intelligence.Store.PipelineRows.{EventIndexEntry}
use sulix_intelligence.Store.Memory.{MemoryStore}
use sulix_intelligence.Store.Memory.Decisions.{stamp}

-- The row is of the event, or of the aggregate.
abbrev pub has_event_id : String → EventIndexEntry → Bool
has_event_id event_id e = str_eq e.event_id event_id

abbrev pub is_of : String → String → EventIndexEntry → Bool
is_of aggregate_type aggregate_id e =
    str_eq e.aggregate_type aggregate_type && str_eq e.aggregate_id aggregate_id

module _ {F : Type 0} where
  -- `INSERT OR IGNORE`, where `event_id` is unique: a second row for an event is dropped.
  unfoldable pub insert_event_index :
      (event_id aggregate_type aggregate_id event_type object_key : String)
      → I64
      → Mut (MemoryStore F) StoreError (Unit {0})
  insert_event_index event_id aggregate_type aggregate_id event_type object_key occurred_at s =
      let id = s.next_event_archive_id in
      let row : EventIndexEntry = record {
        id = id;
        event_id = event_id;
        aggregate_type = aggregate_type;
        aggregate_id = aggregate_id;
        event_type = event_type;
        object_key = object_key;
        occurred_at = occurred_at;
        created_at = stamp;
      } in
      (
        ok tt,
        if any (has_event_id event_id) s.event_archive then s else record s {
          next_event_archive_id = add_i64 id 1;
          event_archive = s.event_archive ++ row ∷ [];
        },
      )

  -- The newest first.
  unfoldable pub find_event_keys :
      String → String → ℕ → Mut (MemoryStore F) StoreError (List EventIndexEntry)
  find_event_keys aggregate_type aggregate_id limit s = (
    ok (
        take limit (
          sort_by (λ a b. lt_i64 b.occurred_at a.occurred_at)
            (filterb (is_of aggregate_type aggregate_id) s.event_archive))),
    s,
  )
