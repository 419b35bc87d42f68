-- ===== src/Store/Memory/Reflections.antt =====
-- crates/store/src/memory/backend.rs: reflections and promoted memories.
use Prim.Native.String.{String}
use sulix_intelligence.Prelude.{
  ℕ, I64, add_i64, List, Option, none, some, Bool, true, ◌&&◌, filterb, values, insert, get,
  update_value, str_eq, ◌==◌, Mut, ok,
}
use sulix_intelligence.Store.PipelineRows.{
  Reflection, NewReflection, UpdateReflection, Memory, NewMemory, ContextSnapshot,
  NewContextSnapshot,
}
use sulix_intelligence.Store.Error.{StoreError}
use sulix_intelligence.Store.Memory.{MemoryStore}
use sulix_intelligence.Store.Memory.Decisions.{stamp}

-- `if let Some(v) = new { field = v }`, for a field that is optional and for one that is not.
abbrev pub overwrite {ℓ} : {A : Type ℓ} → Option A → Option A → Option A
overwrite (some v) old = some v
overwrite none old = old

abbrev pub overwrite_value {ℓ} : {A : Type ℓ} → Option A → A → A
overwrite_value (some v) old = v
overwrite_value none old = old

-- `filter.is_none_or(|t| field == t)`
abbrev matches_filter : Option String → String → Bool
matches_filter none field = true
matches_filter (some t) field = str_eq field t

module _ {F : Type 0} where
  unfoldable pub new_row : I64 → NewReflection → Reflection F
  new_row id req = record {
    id = id;
    decision_id = req.decision_id;
    outcome_id = req.outcome_id;
    job_id = req.job_id;
    status = req.status;
    artifact_key = none;
    result = none;
    quality_score = none;
    generator_version = some "reflection-v1";
    lessons_count = 0;
    rules_count = 0;
    generated_by = "system";
    retry_count = 0;
    last_error = none;
    started_at = none;
    lease_until = none;
    created_at = stamp;
    updated_at = stamp;
  }

  -- The rows are keyed by decision, so a second row for a decision replaces the first.
  unfoldable pub create_reflection : NewReflection → Mut (MemoryStore F) StoreError I64
  unfolding new_row
  create_reflection req s =
      let id = s.next_reflection_id in
      (
        ok id,
        record s {
          next_reflection_id = add_i64 id 1;
          reflections = insert ◌==◌ req.decision_id (new_row id req) s.reflections;
        },
      )

  unfoldable pub updated_row : UpdateReflection F → Reflection F → Reflection F
  updated_row req r = record r {
    status = req.status;
    result = overwrite req.result r.result;
    quality_score = overwrite req.quality_score r.quality_score;
    artifact_key = overwrite req.artifact_key r.artifact_key;
    lessons_count = overwrite_value req.lessons_count r.lessons_count;
    rules_count = overwrite_value req.rules_count r.rules_count;
    retry_count = overwrite_value req.retry_count r.retry_count;
    last_error = overwrite req.last_error r.last_error;
    started_at = overwrite req.started_at r.started_at;
    lease_until = overwrite req.lease_until r.lease_until;
    updated_at = stamp;
  }

  unfoldable pub update_reflection : UpdateReflection F → Mut (MemoryStore F) StoreError (Unit {0})
  unfolding updated_row
  update_reflection req s = (
    ok tt,
    record s { reflections = update_value (λ r. r.id == req.id) (updated_row req) s.reflections },
  )

  unfoldable pub get_reflection_by_decision :
      I64 → Mut (MemoryStore F) StoreError (Option (Reflection F))
  get_reflection_by_decision id s = (ok (get ◌==◌ id s.reflections), s)

  unfoldable pub create_memory : NewMemory F → Mut (MemoryStore F) StoreError I64
  create_memory entry s =
      let id = s.next_memory_id in
      let row : Memory F = record {
        id = id;
        memory_type = entry.memory_type;
        memory_origin = entry.memory_origin;
        statement = entry.statement;
        confidence = entry.confidence;
        stability_score = entry.stability_score;
        confidence_updated_at = none;
        memory_sources = entry.memory_sources;
        artifact_key = entry.artifact_key;
        status = entry.status;
        usage_count = 0;
        validation_count = 0;
        promoted_at = stamp;
        deprecated_at = none;
        last_used_at = none;
        created_at = stamp;
      } in
      (ok id, record s { next_memory_id = add_i64 id 1; memories = insert ◌==◌ id row s.memories })

  unfoldable pub list_memories :
      Option String → Option String → ℕ → Mut (MemoryStore F) StoreError (List (Memory F))
  list_memories memory_type status limit s = (
    ok (
        filterb (λ m. matches_filter memory_type m.memory_type && matches_filter status m.status)
          (values s.memories)),
    s,
  )

  unfoldable pub save_context_snapshot :
      NewContextSnapshot F → Mut (MemoryStore F) StoreError (Unit {0})
  save_context_snapshot snap s =
      let row : ContextSnapshot F = record {
        id = snap.id;
        query = snap.query;
        intent = snap.intent;
        domain = snap.domain;
        engine_version = "context-engine-v1";
        context_json = snap.context_json;
        object_key = snap.object_key;
        object_size = snap.object_size;
        evidence_refs = snap.evidence_refs;
        confidence = snap.confidence;
        user_scope = snap.user_scope;
        created_at = stamp;
      } in
      (ok tt, record s { snapshots = insert str_eq snap.id row s.snapshots })
