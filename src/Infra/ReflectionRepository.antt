-- ===== src/Infra/ReflectionRepository.antt =====
-- crates/infrastructure/src/reflection_repository.rs: the reflection repository over the in-memory store.
use Prim.Native.String.{String}
use sulix_intelligence.Prelude.{
  I64, lt_i64, List, [], ◌∷◌, map, Option, none, some, Bool, not, ◌&&◌, str_eq, if◌then◌else◌, Mut,
  ◌>>=◌, ◌>>◌, return, fail, mapping,
}
use sulix_intelligence.Store.Error.{StoreError, error_text}
use sulix_intelligence.Store.DecisionRows.{
  Decision, OutcomeEvent, DecisionEvaluation, EvaluationResult, confirmed, partially_confirmed,
  contradicted, inconclusive,
}
use sulix_intelligence.Store.PipelineRows.{Reflection, UpdateReflection}
use sulix_intelligence.Store.Memory.{MemoryStore}
use sulix_intelligence.Store.Memory.Decisions.{find_decision, list_outcomes, list_evaluations}
use sulix_intelligence.Store.Memory.Reflections.{
  get_reflection_by_decision, update_reflection, create_reflection,
}
use sulix_intelligence.Store.Memory.Outbox.{insert_outbox}
use sulix_intelligence.Reflection.Types.{
  ReflectionError, persistence, already_tracked, ReflectionRecord, ReflectionUpdate,
  OutcomeSnapshot, EvaluationSnapshot, DecisionFacts, EventPayload,
}
use sulix_intelligence.Reflection.Ports.{ReflectionRepository, Texts}

abbrev max_reflection_retries : I64
max_reflection_retries = 3

unfoldable pub to_persistence : StoreError → ReflectionError
unfolding error_text
to_persistence e = persistence (error_text e)

-- The `Display` text, crates/domain/src/models/decision.rs.
unfoldable pub evaluation_text : EvaluationResult → String
evaluation_text confirmed = "confirmed"
evaluation_text partially_confirmed = "partially_confirmed"
evaluation_text contradicted = "contradicted"
evaluation_text inconclusive = "inconclusive"

-- `outcomes.into_iter().next()`
abbrev first_outcome : List OutcomeEvent → Option OutcomeSnapshot
first_outcome [] = none
first_outcome (o ∷ os) =
    some (record { id = o.id; outcome_type = o.outcome_type; observation = o.observation })

module _ {F : Type 0} where
  -- A failed row with attempts left.
  unfoldable pub is_open : Reflection F → Bool
  is_open row = str_eq row.status "failed" && lt_i64 row.retry_count max_reflection_retries

  abbrev pub reopening : I64 → UpdateReflection F
  reopening id = record {
    id = id;
    status = "generating";
    result = none;
    quality_score = none;
    artifact_key = none;
    lessons_count = none;
    rules_count = none;
    retry_count = none;
    last_error = none;
    started_at = none;
    lease_until = none;
  }

  abbrev pub evaluation_snapshot : DecisionEvaluation F → EvaluationSnapshot F
  evaluation_snapshot e = record {
    evaluation = evaluation_text e.evaluation;
    confidence = e.confidence;
    reasoning = e.reasoning;
  }

  unfoldable pub create : I64 → String → Mut (MemoryStore F) ReflectionError I64
  unfolding is_open to_persistence get_reflection_by_decision update_reflection create_reflection
  create decision_id job_id = do
    existing ← mapping to_persistence (get_reflection_by_decision decision_id)
    elim existing [
      | none ↦ mapping to_persistence (
          create_reflection (record {
            decision_id = decision_id;
            outcome_id = none;
            job_id = some job_id;
            status = "generating";
          }))
      | some row ↦
          if not (is_open row)
          then fail (already_tracked decision_id)
          else mapping to_persistence (update_reflection (reopening row.id)) >> return row.id
    ]

  unfoldable pub update : ReflectionUpdate F → Mut (MemoryStore F) ReflectionError (Unit {0})
  unfolding to_persistence update_reflection
  update u = mapping to_persistence (
      update_reflection (record {
        id = u.id;
        status = u.status;
        result = u.result;
        quality_score = u.quality_score;
        artifact_key = u.artifact_key;
        lessons_count = u.lessons_count;
        rules_count = u.rules_count;
        retry_count = u.retry_count;
        last_error = u.last_error;
        started_at = u.started_at;
        lease_until = u.lease_until;
      }))

  abbrev record_of : Option (Reflection F) → Option ReflectionRecord
  record_of none = none
  record_of (some r) =
      some (record { id = r.id; decision_id = r.decision_id; retry_count = r.retry_count })

  unfoldable pub find_latest_for_decision :
      I64 → Mut (MemoryStore F) ReflectionError (Option ReflectionRecord)
  unfolding to_persistence get_reflection_by_decision
  find_latest_for_decision decision_id = do
    row ← mapping to_persistence (get_reflection_by_decision decision_id)
    return (record_of row)

  abbrev pub facts_of :
      Decision F → List OutcomeEvent → List (DecisionEvaluation F) → DecisionFacts F
  facts_of d outcomes evaluations = record {
    decision_id = d.id;
    title = d.title;
    decision_type = d.decision_type;
    hypothesis = d.hypothesis;
    confidence = d.confidence;
    outcome = first_outcome outcomes;
    evaluations = map evaluation_snapshot evaluations;
  }

  abbrev facts_of_row :
      I64 → Option (Decision F) → Mut (MemoryStore F) ReflectionError (Option (DecisionFacts F))
  facts_of_row id none = return none
  facts_of_row id (some d) = do
    outcomes ← mapping to_persistence (list_outcomes id)
    evaluations ← mapping to_persistence (list_evaluations id)
    return (some (facts_of d outcomes evaluations))

  unfoldable pub load_decision_context :
      I64 → Mut (MemoryStore F) ReflectionError (Option (DecisionFacts F))
  unfolding to_persistence find_decision list_outcomes list_evaluations evaluation_text
  load_decision_context decision_id = do
    decision ← mapping to_persistence (find_decision decision_id)
    facts_of_row decision_id decision

  unfoldable pub enqueue_event :
      Texts F → String → String → EventPayload F → Mut (MemoryStore F) ReflectionError (Unit {0})
  unfolding to_persistence insert_outbox
  enqueue_event texts object_type object_key payload =
      mapping to_persistence (
        insert_outbox (record {
          object_type = object_type;
          object_key = object_key;
          payload = texts.payload_json payload;
        }))
      >> return tt

  unfoldable pub reflection_repository : Texts F → ReflectionRepository F (MemoryStore F)
  unfolding create update find_latest_for_decision load_decision_context enqueue_event
  reflection_repository texts = record {
    create = create;
    update = update;
    find_latest_for_decision = find_latest_for_decision;
    load_decision_context = load_decision_context;
    enqueue_event = enqueue_event texts;
  }
