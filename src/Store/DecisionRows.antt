-- ===== src/Store/DecisionRows.antt =====
-- crates/domain/src/models/decision.rs: the rows of the decision tables. `F` stands for f64.
use Prim.Native.String.{String}
use sulix_intelligence.Prelude.{I64, List, Option}

pub data EvaluationResult : Type 0 where
  confirmed partially_confirmed contradicted inconclusive : EvaluationResult

pub data EvaluationSource : Type 0 where
  manual ai : EvaluationSource

pub record Decision (F : Type 0) : Type 0 where
  pub id : I64
  pub signal_thread_id : Option I64
  pub actor_id : Option I64
  pub decision_type : String
  pub title : String
  pub hypothesis : Option String
  pub rationale : Option String
  pub confidence : F
  pub status : String
  pub priority : String
  pub expected_outcomes : Option String
  pub created_at : I64
  pub updated_at : I64

pub record OutcomeEvent : Type 0 where
  pub id : I64
  pub decision_id : I64
  pub outcome_type : String
  pub observation : String
  pub evidence_url : Option String
  pub observed_at : I64
  pub created_at : I64

pub record NewOutcomeEvent : Type 0 where
  pub decision_id : I64
  pub outcome_type : String
  pub observation : String
  pub evidence_url : Option String
  pub observed_at : Option I64

pub record DecisionEvaluation (F : Type 0) : Type 0 where
  pub id : I64
  pub decision_id : I64
  pub evaluation : EvaluationResult
  pub confidence : Option F
  pub reasoning : Option String
  pub evaluator : EvaluationSource
  pub evaluated_at : I64
  pub created_at : I64

pub record NewDecisionEvaluation (F : Type 0) : Type 0 where
  pub decision_id : I64
  pub evaluation : EvaluationResult
  pub confidence : Option F
  pub reasoning : Option String
  pub evaluator : EvaluationSource
  pub evaluated_at : Option I64

pub record EvalSummary (F : Type 0) : Type 0 where
  pub total_evaluated : I64
  pub confirmed : I64
  pub partially_confirmed : I64
  pub contradicted : I64
  pub inconclusive : I64
  pub accuracy_rate : F

pub record TypeCount : Type 0 where
  pub label : String
  pub count : I64

pub record PriorityCount : Type 0 where
  pub label : String
  pub count : I64

pub record SignalDecisionCount : Type 0 where
  pub signal_id : I64
  pub signal_title : String
  pub decision_count : I64

pub record DecisionStats (F : Type 0) : Type 0 where
  pub total_decisions : I64
  pub active : I64
  pub completed : I64
  pub superseded : I64
  pub by_type : List TypeCount
  pub by_priority : List PriorityCount
  pub evaluation_summary : EvalSummary F
  pub top_signals : List SignalDecisionCount
