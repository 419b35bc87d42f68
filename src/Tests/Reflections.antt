-- ===== src/Tests/Reflections.antt =====
-- Runs of the reflection engine on a concrete decision.
use Prim.Native.String.{◌++◌}
use sulix_intelligence.Prelude.{
  ok, ℕ, ◌≡◌, ◌↔◌, refl, [], ◌∷◌, none, some, true, err, milli, get, ◌==◌,
}
use sulix_intelligence.Store.PipelineRows.{Reflection}
use sulix_intelligence.Store.Memory.{MemoryStore, new}
use sulix_intelligence.Reflection.Types.{
  ReflectionJob, cron, ReflectionDraft, LessonDraft, reflection_error_text, already_tracked,
}
use sulix_intelligence.Reflection.Ports.{Services, Texts}
use sulix_intelligence.Reflection.Context.{context_of}
use sulix_intelligence.Reflection.Validation.{validate}
use sulix_intelligence.Reflection.Sound.{IsSound, validate-IsSound}
use sulix_intelligence.Reflection.Engine.{execute_at}
use sulix_intelligence.Infra.ReflectionRepository.{create, reflection_repository}
use sulix_intelligence.Infra.ReflectionRuns.{leased_row}
use sulix_intelligence.Infra.ReflectionRecovery.{recover_stale, expired_row, execute_at-recovered}
use sulix_intelligence.Tests.Data.{row, store_with}

abbrev pub texts : Texts ℕ
texts = record {
  display = λ x. "x";
  fixed2 = λ x. "x";
  draft_json = λ d. "{}";
  payload_json = λ p. "{}";
}

-- Every service is down.
abbrev pub down : Services ℕ (MemoryStore ℕ)
down = record {
  generate = λ c s. (err "offline", s);
  append = λ e s. (err "offline", s);
  store_artifact = λ a s. (err "offline", s);
}

abbrev pub empty_draft : ReflectionDraft ℕ
empty_draft = record {
  result = "correct";
  confidence_calibration = "fair";
  quality_score = 900;
  lessons = [];
  rules = [];
}

abbrev pub lesson : LessonDraft ℕ
lesson = record {
  category = "timing";
  domain = "product";
  description = "Ship the feature before the season starts";
  severity = "low";
  confidence = 700;
  evidence_basis = "outcome 1" ∷ [];
}

abbrev pub job : ReflectionJob
job = record { decision_id = 7; trigger = cron; correlation_id = "corr" }

abbrev before : MemoryStore ℕ
before = store_with (row 7 "completed" ∷ [])

abbrev pub generating : Reflection ℕ
generating = record {
  id = 4;
  decision_id = 7;
  outcome_id = none;
  job_id = none;
  status = "generating";
  artifact_key = none;
  result = none;
  quality_score = none;
  generator_version = none;
  lessons_count = 0;
  rules_count = 0;
  generated_by = "system";
  retry_count = 1;
  last_error = none;
  started_at = none;
  lease_until = none;
  created_at = 1;
  updated_at = 1;
}

abbrev pub running : MemoryStore ℕ
running = record before { reflections = (7, generating) ∷ [] }

execute_at-recovered_example :
    let repo = reflection_repository texts in
    let s' = (execute_at texts repo down job 100 before).1 in
    let s'' = recover_stale 2000 s' in
    ((execute_at texts repo down job 100 before).0 ≡ err ("LLM generation failed: " ++ "offline"))
    × (get ◌==◌ 7 s'.reflections ≡ some (leased_row job 100 before))
    × (execute_at texts repo down job 500 s'
        ≡ (err ("create_reflection failed: " ++ reflection_error_text (already_tracked 7)), s'))
    × (get ◌==◌ 7 s''.reflections ≡ some (expired_row (leased_row job 100 before)))
    × ((create 7 "again" s'').0 ≡ ok before.next_reflection_id)
unfolding new context_of
execute_at-recovered_example =
    execute_at-recovered texts down down job job 100 500 2000 "offline" "again" before
      (row 7 "completed") refl tt refl refl refl (λ c t. refl) refl refl refl

validate-IsSound_example :
    ((validate texts (record empty_draft { lessons = lesson ∷ [] })).valid ≡ true)
    ↔ IsSound (record empty_draft { lessons = lesson ∷ [] })
validate-IsSound_example = validate-IsSound texts (record empty_draft { lessons = lesson ∷ [] })
