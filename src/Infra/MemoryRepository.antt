-- ===== src/Infra/MemoryRepository.antt =====
-- crates/infrastructure/src/memory_repository.rs: the memory engine's repository over the in-memory store.
use Prim.Native.String.{String}
use sulix_intelligence.Prelude.{ℕ, I64, List, map, Mut, ◌>>=◌, ◌>>◌, return, mapping}
use sulix_intelligence.Store.Error.{StoreError, error_text}
use sulix_intelligence.Store.PipelineRows.{EventIndexEntry}
use sulix_intelligence.Store.Memory.{MemoryStore}
use sulix_intelligence.Store.Memory.Reflections.{create_memory}
use sulix_intelligence.Store.Memory.Outbox.{insert_outbox, find_event_keys}
use sulix_intelligence.MemoryEngine.Types.{
  NewMemory, MemoryEventRef, MemoryError, persistence, MemoryRepository,
}

unfoldable pub to_memory_error : StoreError → MemoryError
unfolding error_text
to_memory_error e = persistence (error_text e)

abbrev event_ref : EventIndexEntry → MemoryEventRef
event_ref r = record {
  event_id = r.event_id;
  aggregate_id = r.aggregate_id;
  object_key = r.object_key;
  occurred_at = r.occurred_at;
}

module _ {F : Type 0} where
  unfoldable pub create_memory_row : NewMemory F → Mut (MemoryStore F) MemoryError I64
  unfolding to_memory_error create_memory
  create_memory_row memory = mapping to_memory_error (
      create_memory (record {
        memory_type = memory.memory_type;
        memory_origin = memory.memory_origin;
        statement = memory.statement;
        confidence = memory.confidence;
        stability_score = memory.stability_score;
        memory_sources = memory.memory_sources;
        artifact_key = memory.artifact_key;
        status = memory.status;
      }))

  unfoldable pub enqueue_memory_event :
      String → String → String → Mut (MemoryStore F) MemoryError (Unit {0})
  unfolding to_memory_error insert_outbox
  enqueue_memory_event object_type object_key payload =
      mapping to_memory_error (
        insert_outbox
          (record { object_type = object_type; object_key = object_key; payload = payload }))
      >> return tt

  unfoldable pub list_reflection_events : ℕ → Mut (MemoryStore F) MemoryError (List MemoryEventRef)
  unfolding to_memory_error find_event_keys
  list_reflection_events limit = do
    rows ← mapping to_memory_error (find_event_keys "reflection" "" limit)
    return (map event_ref rows)

  unfoldable pub promotion_repository : MemoryRepository F (MemoryStore F)
  unfolding create_memory_row enqueue_memory_event list_reflection_events
  promotion_repository = record {
    create_memory = create_memory_row;
    enqueue_event = enqueue_memory_event;
    list_reflection_events = list_reflection_events;
  }
