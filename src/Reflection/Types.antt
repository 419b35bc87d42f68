-- ===== src/Reflection/Types.antt =====
-- crates/intelligence/reflection-engine/src/{repository,context,error,generator/trait,service}.rs: the data of the
-- engine, and the shared kernel's events and artifacts.
use Prim.Native.String.{String, ◌++◌}
use sulix_intelligence.Prelude.{I64, List, Option}
use sulix_intelligence.Prelude.Decimal.{padded}

pub data ReflectionError : Type 0 where
  persistence : String → ReflectionError
  decision_not_found already_tracked : I64 → ReflectionError

-- The `Display` text.
unfoldable pub reflection_error_text : ReflectionError → String
reflection_error_text (persistence e) = "persistence error: " ++ e
reflection_error_text (decision_not_found id) = "decision " ++ padded 1 id ++ " not found"
reflection_error_text (already_tracked id) =
    "reflection already tracked for decision " ++ padded 1 id

pub record ReflectionRecord : Type 0 where
  pub id : I64
  pub decision_id : I64
  pub retry_count : I64

pub record ReflectionUpdate (F : Type 0) : Type 0 where
  pub id : I64
  pub status : String
  pub result : Option String
  pub quality_score : Option F
  pub artifact_key : Option String
  pub lessons_count : Option I64
  pub rules_count : Option I64
  pub retry_count : Option I64
  pub last_error : Option String
  pub started_at : Option I64
  pub lease_until : Option I64

pub record OutcomeSnapshot : Type 0 where
  pub id : I64
  pub outcome_type : String
  pub observation : String

pub record EvaluationSnapshot (F : Type 0) : Type 0 where
  pub evaluation : String
  pub confidence : Option F
  pub reasoning : Option String

pub record DecisionFacts (F : Type 0) : Type 0 where
  pub decision_id : I64
  pub title : String
  pub decision_type : String
  pub hypothesis : Option String
  pub confidence : F
  pub outcome : Option OutcomeSnapshot
  pub evaluations : List (EvaluationSnapshot F)

pub record DecisionSnapshot : Type 0 where
  pub id : I64
  pub title : String
  pub decision_type : String

pub record ThesisSnapshot (F : Type 0) : Type 0 where
  pub hypothesis : String
  pub assumptions : List String
  pub initial_confidence : F

pub record EvidenceItem (F : Type 0) : Type 0 where
  pub source : String
  pub summary : String
  pub relevance_score : F
  pub captured_at : I64

pub record ReflectionContext (F : Type 0) : Type 0 where
  pub decision : DecisionSnapshot
  pub thesis : ThesisSnapshot F
  pub outcome : Option OutcomeSnapshot
  pub evaluations : List (EvaluationSnapshot F)
  pub evidence : List (EvidenceItem F)
  pub completeness_score : F

pub record LessonDraft (F : Type 0) : Type 0 where
  pub category : String
  pub domain : String
  pub description : String
  pub severity : String
  pub confidence : F
  pub evidence_basis : List String

pub record RuleDraft (F : Type 0) : Type 0 where
  pub condition_domain : String
  pub condition_trigger : String
  pub action_type : String
  pub action_instruction : String
  pub confidence : F

pub record ReflectionDraft (F : Type 0) : Type 0 where
  pub result : String
  pub confidence_calibration : String
  pub quality_score : F
  pub lessons : List (LessonDraft F)
  pub rules : List (RuleDraft F)

pub data ReflectionTrigger : Type 0 where
  api cron : ReflectionTrigger

pub record ReflectionJob : Type 0 where
  pub decision_id : I64
  pub trigger : ReflectionTrigger
  pub correlation_id : String

pub record ReflectionResult : Type 0 where
  pub reflection_id : I64
  pub decision_id : I64
  pub status : String

-- The fields that `execute_at` puts into its `serde_json::json!` object.
pub record EventPayload (F : Type 0) : Type 0 where
  pub reflection_id : String
  pub decision_id : String
  pub artifact_key : String
  pub artifact_id : Option I64
  pub quality_score : F
  pub lesson_count : I64
  pub rule_count : I64
