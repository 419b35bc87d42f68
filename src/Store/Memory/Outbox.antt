-- ===== src/Store/Memory/Outbox.antt =====
-- crates/store/src/memory/backend.rs: the outbox, the event index and the artifacts.
use Prim.Native.String.{String}
use sulix_intelligence.Prelude.{
  ℕ, I64, add_i64, List, [], ◌∷◌, ◌++◌, Bool, ◌&&◌, not, map, reverse, take, filterb, update_first,
  str_eq, lt_i64, ◌==◌, Mut, ok,
}
use sulix_intelligence.Store.PipelineRows.{
  OutboxEntry, NewOutbox, EventIndexEntry, NewArtifact, ArtifactEntry, ArtifactRecord, ArtifactData,
}
use sulix_intelligence.Store.Error.{StoreError}
use sulix_intelligence.Store.Memory.{MemoryStore}
use sulix_intelligence.Store.Memory.Decisions.{stamp}

abbrev pub is_pending : OutboxEntry → Bool
is_pending e = str_eq e.status "pending"

-- The test of `mark_outbox_failed`: `e.id == id && e.retry_count >= 3`.
abbrev pub is_exhausted : I64 → OutboxEntry → Bool
is_exhausted id e = e.id == id && not (lt_i64 e.retry_count 3)

abbrev pub entry_of : ArtifactData → ArtifactEntry
entry_of a = record {
  id = a.id;
  artifact_type = a.artifact_type;
  entity_id = a.entity_id;
  r2_key = a.r2_key;
  schema_version = a.schema_version;
  model = a.model;
  pipeline_version = a.pipeline_version;
  metadata = a.metadata;
  created_at = a.created_at;
}

module _ {F : Type 0} where
  unfoldable pub insert_outbox : NewOutbox → Mut (MemoryStore F) StoreError I64
  insert_outbox entry s =
      let id = s.next_outbox_id in
      let row : OutboxEntry = record {
        id = id;
        object_type = entry.object_type;
        object_key = entry.object_key;
        payload = entry.payload;
        status = "pending";
        created_at = stamp;
        retry_count = 0;
      } in
      (ok id, record s { next_outbox_id = add_i64 id 1; outbox = s.outbox ++ row ∷ [] })

  unfoldable pub drain_outbox : ℕ → Mut (MemoryStore F) StoreError (List OutboxEntry)
  drain_outbox limit s = (ok (take limit (filterb is_pending s.outbox)), s)

  unfoldable pub mark_outbox_archived : I64 → Mut (MemoryStore F) StoreError (Unit {0})
  mark_outbox_archived id s = (
    ok tt,
    record s {
      outbox = update_first (λ e. e.id == id) (λ e. record e { status = "archived" }) s.outbox;
    },
  )

  unfoldable pub mark_outbox_failed : I64 → Mut (MemoryStore F) StoreError (Unit {0})
  mark_outbox_failed id s = (
    ok tt,
    record s {
      outbox =
          update_first (is_exhausted id)
            (λ e. record e { status = "failed"; retry_count = add_i64 e.retry_count 1 }) s.outbox;
    },
  )

  unfoldable pub insert_event_index :
      (event_id aggregate_type aggregate_id event_type object_key : String)
      → I64
      → Mut (MemoryStore F) StoreError (Unit {0})
  insert_event_index event_id aggregate_type aggregate_id event_type object_key occurred_at s =
      let id = s.next_event_archive_id in
      let row : EventIndexEntry = record {
        id = id;
        event_id = event_id;
        aggregate_type = aggregate_type;
        aggregate_id = aggregate_id;
        event_type = event_type;
        object_key = object_key;
        occurred_at = occurred_at;
        created_at = stamp;
      } in
      (
        ok tt,
        record s {
          next_event_archive_id = add_i64 id 1;
          event_archive = s.event_archive ++ row ∷ [];
        },
      )

  unfoldable pub find_event_keys :
      String → String → ℕ → Mut (MemoryStore F) StoreError (List EventIndexEntry)
  find_event_keys aggregate_type aggregate_id limit s = (
    ok (
        take limit (
          reverse (
            filterb
              (λ e. str_eq e.aggregate_type aggregate_type && str_eq e.aggregate_id aggregate_id)
              s.event_archive))),
    s,
  )

  unfoldable pub create_artifact : NewArtifact → I64 → Mut (MemoryStore F) StoreError I64
  create_artifact artifact now s =
      let id = s.next_artifact_id in
      let row : ArtifactData = record {
        id = id;
        artifact_type = artifact.artifact_type;
        entity_id = artifact.entity_id;
        r2_key = artifact.r2_key;
        schema_version = artifact.schema_version;
        model = artifact.model;
        pipeline_version = artifact.pipeline_version;
        metadata = artifact.metadata;
        created_at = now;
      } in
      (ok id, record s { next_artifact_id = add_i64 id 1; artifacts = s.artifacts ++ row ∷ [] })

  unfoldable pub list_artifacts_by_entity :
      I64 → ℕ → Mut (MemoryStore F) StoreError (List ArtifactEntry)
  list_artifacts_by_entity entity_id limit s = (
    ok (take limit (reverse (map entry_of (filterb (λ a. a.entity_id == entity_id) s.artifacts)))),
    s,
  )

  unfoldable pub list_artifacts : String → ℕ → Mut (MemoryStore F) StoreError (List ArtifactRecord)
  list_artifacts artifact_type limit s = (
    ok (
        take limit
          (reverse (filterb (λ a. str_eq a.artifact_type artifact_type) s.memory_artifacts))),
    s,
  )
