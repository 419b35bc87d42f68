-- ===== src/Reflection/Engine.antt =====
-- crates/intelligence/reflection-engine/src/service.rs: one run of the reflection engine, over any ports.
use Prim.Native.String.{String, ◌++◌}
use sulix_intelligence.Prelude.{
  I64, add_i64, List, [], ◌∷◌, length, Option, none, some, not, Float, if◌then◌else◌, Mut, Result,
  ok, err, ◌>>=◌, ◌>>◌, return, fail, mapping, rescue, ignoring, unpolled,
}
use sulix_intelligence.Prelude.Decimal.{padded}
use sulix_intelligence.Ids.{domain_id}
use sulix_intelligence.Reflection.Types.{
  reflection_error_text, ReflectionRecord, ReflectionUpdate, ReflectionContext, ReflectionDraft,
  ReflectionJob, ReflectionResult, EventPayload,
}
use sulix_intelligence.Reflection.Ports.{ReflectionRepository, Services, Texts, ArtifactRef}
use sulix_intelligence.Reflection.Context.{build}
use sulix_intelligence.Reflection.Validation.{validate}

unfoldable pub job_id : I64 → I64 → String
job_id decision_id now = "job_reflect_DEC" ++ padded 6 decision_id ++ "_" ++ padded 1 now

-- `errors.join(sep)`
unfoldable pub join : String → List String → String
join sep [] = ""
join sep (x ∷ []) = x
join sep (x ∷ y ∷ ys) = x ++ sep ++ join sep (y ∷ ys)

module _ {F : Type 0} where
  abbrev pub lease_update : I64 → I64 → ReflectionUpdate F
  lease_update id now = record {
    id = id;
    status = "generating";
    result = none;
    quality_score = none;
    artifact_key = none;
    lessons_count = none;
    rules_count = none;
    retry_count = none;
    last_error = none;
    started_at = some now;
    lease_until = some (add_i64 now 900);
  }

  abbrev pub failed_update : I64 → I64 → String → ReflectionUpdate F
  failed_update id retry_count error = record {
    id = id;
    status = "failed";
    result = none;
    quality_score = none;
    artifact_key = none;
    lessons_count = none;
    rules_count = none;
    retry_count = some retry_count;
    last_error = some error;
    started_at = none;
    lease_until = none;
  }

  abbrev pub generated_update : I64 → ReflectionDraft F → F → String → ReflectionUpdate F
  generated_update id draft quality artifact_key = record {
    id = id;
    status = "generated";
    result = some draft.result;
    quality_score = some quality;
    artifact_key = some artifact_key;
    lessons_count = some (length draft.lessons);
    rules_count = some (length draft.rules);
    retry_count = none;
    last_error = none;
    started_at = none;
    lease_until = none;
  }

-- The count that a failure writes: one more than the row's, and 0 without a row.
abbrev pub next_retry : Option ReflectionRecord → I64
next_retry none = 0
next_retry (some r) = add_i64 r.retry_count 1

-- `result.ok().flatten()`
abbrev pub flattened {ℓ κ} : {E : Type ℓ} {A : Type κ} → Result E (Option A) → Option A
flattened (ok o) = o
flattened (err e) = none

-- `result.ok()`
abbrev pub ok_of {ℓ κ} : {E : Type ℓ} {A : Type κ} → Result E A → Option A
ok_of (ok a) = some a
ok_of (err e) = none

-- `let r = m.await;` with the error kept as a value.
abbrev pub attempt : {S E E' A : Type 0} → Mut S E A → Mut S E' (Result E A)
attempt m s = let (r, s') = m s in (ok r, s')

abbrev pub key_of : Option ArtifactRef → String → String
key_of none default = default
key_of (some r) default = r.object_key

abbrev pub id_of : Option ArtifactRef → Option I64
id_of none = none
id_of (some r) = some r.artifact_id

module _ {F St : Type 0} (repo : ReflectionRepository F St) where
  unfoldable pub mark_failed : I64 → I64 → String → Mut St String (Unit {0})
  mark_failed id decision_id error = do
    found ← attempt (repo.find_latest_for_decision decision_id)
    ignoring (repo.update (failed_update id (next_retry (flattened found)) error))

  unfoldable pub mark_failed_with_retry : I64 → String → I64 → Mut St String (Unit {0})
  mark_failed_with_retry id error retry_count =
      ignoring (repo.update (failed_update id retry_count error))

module _ {F St : Type 0} ⦃fl : Float F⦄ (texts : Texts F) (repo : ReflectionRepository F St)
    (services : Services F St) where
  -- Storing a valid draft, `execute_at` from the artifact on.
  unfoldable pub publish :
      ReflectionJob → I64 → I64 → ReflectionDraft F → F → Mut St String ReflectionResult
  unfolding domain_id
  publish job now id draft quality = do
    stored ← attempt (
        services.store_artifact (record {
          artifact_type = "reflection_result";
          owner_type = "reflection";
          owner_id = domain_id "REF-" id;
          content = texts.draft_json draft;
          content_type = "application/json";
        }))
    let artifact = ok_of stored
    let key = key_of artifact ("memory/reflections/" ++ domain_id "REF-" id ++ ".json")
    ignoring (repo.update (generated_update id draft quality key))
    let payload : EventPayload F = record {
      reflection_id = domain_id "REF-" id;
      decision_id = domain_id "DEC-" job.decision_id;
      artifact_key = key;
      artifact_id = id_of artifact;
      quality_score = quality;
      lesson_count = length draft.lessons;
      rule_count = length draft.rules;
    }
    ignoring (
        repo.enqueue_event "event:reflection"
          ("memory/events/reflection/" ++ padded 1 now ++ "/" ++ job.correlation_id) payload)
    ignoring (
        services.append (record {
          event_type = "ReflectionGenerated";
          aggregate_type = "reflection";
          aggregate_id = domain_id "REF-" id;
          payload = payload;
          occurred_at = now;
          correlation_id = job.correlation_id;
        }))
    return (record { reflection_id = id; decision_id = job.decision_id; status = "generated" })

  -- The validation of a draft: an invalid one is marked as failed.
  unfoldable pub judge :
      ReflectionJob → I64 → I64 → ReflectionDraft F → Mut St String ReflectionResult
  unfolding validate publish mark_failed join
  judge job now id draft =
      let v = validate texts draft in
      let msg = "validation_failed: " ++ join "; " v.errors in
      if not v.valid
      then mark_failed repo id job.decision_id msg >> fail msg
      else publish job now id draft v.quality_score

  -- From the context to the draft. Both error handlers are closures that call the async `mark_failed`
  -- without awaiting it.
  unfoldable pub generation :
      ReflectionJob → I64 → I64 → ReflectionContext F → Mut St String ReflectionResult
  unfolding judge mark_failed mark_failed_with_retry
  generation job now id context =
      let msg = "insufficient_context (score=" ++ texts.fixed2 context.completeness_score ++ ")" in
      let sufficient : Mut St String ReflectionResult = do
        draft ← rescue (services.generate context) (λ e.
            unpolled (mark_failed repo id job.decision_id ("llm_error: " ++ e))
            >> fail ("LLM generation failed: " ++ e))
        judge job now id draft
      in if fl.lt context.completeness_score (fl.ratio 4 10)
        then mark_failed_with_retry repo id msg 3 >> fail msg
        else sufficient

  unfoldable pub reflect : ReflectionJob → I64 → I64 → Mut St String ReflectionResult
  unfolding build generation mark_failed reflection_error_text
  reflect job now id = do
    context ← rescue (build repo job.decision_id) (λ e.
        unpolled
          (mark_failed repo id job.decision_id ("context_error: " ++ reflection_error_text e))
        >> fail ("context build failed: " ++ reflection_error_text e))
    generation job now id context

  unfoldable pub execute_at : ReflectionJob → I64 → Mut St String ReflectionResult
  unfolding reflect job_id reflection_error_text
  execute_at job now = do
    id ←
        mapping (λ e. "create_reflection failed: " ++ reflection_error_text e)
          (repo.create job.decision_id (job_id job.decision_id now))
    ignoring (repo.update (lease_update id now))
    reflect job now id
