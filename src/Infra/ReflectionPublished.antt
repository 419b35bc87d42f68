-- ===== src/Infra/ReflectionPublished.antt =====
-- The end of a reflection run over the in-memory store: a valid draft is published.
use Prim.Native.String.{String, ◌++◌}
use sulix_intelligence.Prelude.{
  I64, ◌≡◌, refl, ◌∙◌, ap, sym, subst, some, true, ◌==◌, get, Float, ok, length,
}
use sulix_intelligence.Ids.{domain_id}
use sulix_intelligence.Store.PipelineRows.{Reflection}
use sulix_intelligence.Store.Memory.{MemoryStore}
use sulix_intelligence.Store.Memory.Reflections.{update_reflection, updated_row}
use sulix_intelligence.Store.Memory.Outbox.{insert_outbox}
use sulix_intelligence.Reflection.Types.{ReflectionJob, ReflectionDraft}
use sulix_intelligence.Reflection.Ports.{Services, Texts, NewArtifact, DomainEvent}
use sulix_intelligence.Reflection.Validation.{validate}
use sulix_intelligence.Reflection.Engine.{judge, publish, key_of, ok_of}
use sulix_intelligence.Infra.ReflectionRepository.{update, enqueue_event, reflection_repository}
use sulix_intelligence.Infra.ReflectionRows.{UniqueIds, get-update_value}

module _ {F : Type 0} where
  -- The registry and the event log write to tables of their own.
  abbrev pub KeepsRows : Services F (MemoryStore F) → Type 0
  KeepsRows services =
      ((a : NewArtifact) (t : MemoryStore F)
        → (services.store_artifact a t).1.reflections ≡ t.reflections)
      × ((e : DomainEvent F) (t : MemoryStore F)
          → (services.append e t).1.reflections ≡ t.reflections)

  abbrev pub artifact_of : Texts F → I64 → ReflectionDraft F → NewArtifact
  artifact_of texts id draft = record {
    artifact_type = "reflection_result";
    owner_type = "reflection";
    owner_id = domain_id "REF-" id;
    content = texts.draft_json draft;
    content_type = "application/json";
  }

  abbrev pub artifact_key_of :
      Texts F → Services F (MemoryStore F) → I64 → ReflectionDraft F → MemoryStore F → String
  artifact_key_of texts services id draft s =
      key_of (ok_of (services.store_artifact (artifact_of texts id draft) s).0)
        ("memory/reflections/" ++ domain_id "REF-" id ++ ".json")

module _ {F : Type 0} ⦃fl : Float F⦄ (texts : Texts F) where
  -- In a store whose reflection rows have distinct ids, with services that leave these rows alone, a valid
  -- draft ends its run well: the row of the decision is "generated" and holds the verdict, the score, the
  -- counts and the key of the artifact, whether or not the artifact and the event are stored.
  pub judge-valid :
      (services : Services F (MemoryStore F)) (job : ReflectionJob) (now : I64)
      (draft : ReflectionDraft F) (s : MemoryStore F) (row : Reflection F)
      → get ◌==◌ job.decision_id s.reflections ≡ some row
      → UniqueIds s.reflections
      → (validate texts draft).valid ≡ true
      → KeepsRows services
      → let run = judge texts (reflection_repository texts) services job now row.id draft s in
        (run.0
          ≡ ok (record {
            reflection_id = row.id;
            decision_id = job.decision_id;
            status = "generated";
          }))
        × (get ◌==◌ job.decision_id run.1.reflections
            ≡ some (record row {
              status = "generated";
              result = some draft.result;
              quality_score = some (validate texts draft).quality_score;
              artifact_key = some (artifact_key_of texts services row.id draft s);
              lessons_count = length draft.lessons;
              rules_count = length draft.rules;
              updated_at = 1000000;
            }))
  unfolding judge publish reflection_repository update update_reflection updated_row enqueue_event
      insert_outbox
  judge-valid services job now draft s row tracked unique valid keeps =
      let kept = keeps.0 (artifact_of texts row.id draft) s in
      rw (valid) (
        refl,
        ap (get ◌==◌ job.decision_id) (keeps.1 _ _)
            ∙ get-update_value job.decision_id _ _ row (subst UniqueIds (sym kept) unique)
                (ap (get ◌==◌ job.decision_id) kept ∙ tracked),
      )
