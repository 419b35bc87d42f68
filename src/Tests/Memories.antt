-- ===== src/Tests/Memories.antt =====
-- The memory engine, the published reflection and the outbox on concrete data.
use Prim.Native.String.{String}
use sulix_intelligence.Prelude.{ℕ, ◌≡◌, refl, [], ◌∷◌, none, some, ok, milli, get, ◌==◌}
use sulix_intelligence.Store.PipelineRows.{EventIndexEntry, NewOutbox}
use sulix_intelligence.Store.Memory.{MemoryStore, new}
use sulix_intelligence.Store.ContentRows.{NewArticle}
use sulix_intelligence.Store.Memory.Content.{save_article}
use sulix_intelligence.Store.ArticleLaws.{UniqueArticles, save_article-UniqueArticles}
use sulix_intelligence.Store.OutboxDrain.{queued}
use sulix_intelligence.Reflection.Types.{ReflectionDraft}
use sulix_intelligence.Reflection.Engine.{judge}
use sulix_intelligence.Reflection.Validation.{validate}
use sulix_intelligence.Infra.ReflectionRepository.{reflection_repository}
use sulix_intelligence.Infra.ReflectionPublished.{artifact_key_of, judge-valid}
use sulix_intelligence.MemoryEngine.Types.{PromotionScore, MemoryTexts, Cache}
use sulix_intelligence.MemoryEngine.Worker.{process_pending}
use sulix_intelligence.Infra.MemoryRepository.{promotion_repository}
use sulix_intelligence.Infra.MemoryRuns.{process_pending-idle}
use sulix_intelligence.Tests.Data.{empty_store}
use sulix_intelligence.Tests.Reflections.{
  texts, down, empty_draft, lesson, job, generating, running,
}

abbrev memory_texts : MemoryTexts ℕ ℕ
memory_texts = record {
  trim = λ s. s;
  replace = λ s a b. s;
  fixed2 = λ x. "x";
  sources_json = λ s. "[]";
  event_json = λ a b c d. "{}";
  archive_json = λ a b c d e. "{}";
  narrow = λ x. x;
  widen = λ x. x;
}

-- A cache of one text.
abbrev one_text : Cache String
one_text = record { get = λ key k. ok (some k); put = λ key val. ok (λ k. val) }

abbrev reflected : EventIndexEntry
reflected = record {
  id = 1;
  event_id = "evt";
  aggregate_type = "reflection";
  aggregate_id = "REF-000004";
  event_type = "ReflectionGenerated";
  object_key = "k";
  occurred_at = 800000;
  created_at = 800000;
}

abbrev archive : MemoryStore ℕ
archive = record empty_store { event_archive = reflected ∷ [] }

process_pending-idle_example :
    process_pending memory_texts promotion_repository one_text 900000
      (λ k. 900000)
      (archive, "never")
    ≡ (archive, "never")
process_pending-idle_example =
    process_pending-idle memory_texts one_text 900000 (λ k. 900000) archive "never" (refl, tt)

abbrev strong : PromotionScore ℕ
strong = record {
  confidence = 900;
  recurrence = 900;
  impact = 900;
  evidence = 800;
  stability = 900;
  total = 880;
}

abbrev full_draft : ReflectionDraft ℕ
full_draft = record empty_draft { lessons = lesson ∷ [] }

judge-valid_example :
    let run = judge texts (reflection_repository texts) down job 100 4 full_draft running in
    (run.0 ≡ ok (record { reflection_id = 4; decision_id = 7; status = "generated" }))
    × (get ◌==◌ 7 run.1.reflections
        ≡ some (record generating {
          status = "generated";
          result = some "correct";
          quality_score = some (validate texts full_draft).quality_score;
          artifact_key = some (artifact_key_of texts down 4 full_draft running);
          lessons_count = 1;
          rules_count = 0;
          updated_at = 1000000;
        }))
unfolding validate
judge-valid_example =
    judge-valid texts down job 100 full_draft running generating refl (refl, tt) refl
      (λ a t. refl, λ e t. refl)

abbrev entry : NewOutbox
entry = record { object_type = "event:memory"; object_key = "k"; payload = "{}" }

abbrev two_queued : MemoryStore ℕ
two_queued = record empty_store { outbox = queued 1 entry ∷ queued 2 entry ∷ [] }

abbrev story : NewArticle
story = record {
  feed_id = 1;
  guid = "a-1";
  url = some "https://a/1";
  title = "Rates";
  published_at = none;
  raw_content_r2_key = none;
}

save_article-UniqueArticles_example : UniqueArticles (save_article story empty_store).1.articles
unfolding new
save_article-UniqueArticles_example = save_article-UniqueArticles story empty_store tt
