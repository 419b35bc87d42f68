-- ===== src/Decision/Types.antt =====
-- crates/decision-engine/src/{outcome,commands,events,error}.rs: the data of the Decision aggregate.
-- `F` stands for f64. A command carries the domain id as a text, as the source does.
use Prim.Native.String.{String}
use sulix_intelligence.Prelude.{ℕ, I64, List, Option}
use sulix_intelligence.Decision.Status.{DecisionStatus}

pub record ExpectedOutcome : Type 0 where
  pub metric : String
  pub expected_value : String
  pub measurement_method : String

pub data OutcomeVerdict : Type 0 where
  achieved missed inconclusive : OutcomeVerdict

pub record ObservedOutcome : Type 0 where
  pub metric : String
  pub actual_value : String
  pub outcome_type : OutcomeVerdict
  pub evidence_url : Option String
  pub observed_at : I64

pub record ProposeDecision (F : Type 0) : Type 0 where
  pub id : I64
  pub title : String
  pub hypothesis : Option String
  pub confidence : F
  pub rationale : Option String
  pub decision_type : String
  pub priority : String
  pub signal_thread_id : Option I64
  pub actor_id : Option I64
  pub expected_outcomes : List ExpectedOutcome

pub record ReconstructDecision (F : Type 0) : Type 0 where
  pub id : String
  pub title : String
  pub hypothesis : Option String
  pub confidence : F
  pub status : DecisionStatus
  pub rationale : Option String
  pub decision_type : String
  pub priority : String
  pub signal_thread_id : Option I64
  pub actor_id : Option I64
  pub expected_outcomes : List ExpectedOutcome
  pub observed_outcomes : List ObservedOutcome
  pub created_at : I64
  pub updated_at : I64

pub record ApproveDecision : Type 0 where
  pub decision_id : String
  pub approved_by : String

pub record ExecuteDecision : Type 0 where
  pub decision_id : String

pub record RecordOutcome : Type 0 where
  pub decision_id : String
  pub outcome : ObservedOutcome

pub record InvalidateDecision : Type 0 where
  pub decision_id : String
  pub reason : String

pub data DecisionDomainEvent (F : Type 0) : Type 0 where
  proposed :
      (decision_id title : String) (confidence : F) (decision_type : String) → DecisionDomainEvent F
  approved : (decision_id approved_by : String) → DecisionDomainEvent F
  status_changed : (decision_id : String) (from to : DecisionStatus) → DecisionDomainEvent F
  outcome_attached : (decision_id metric verdict : String) → DecisionDomainEvent F
  completed : (decision_id : String) (outcome_count : ℕ) → DecisionDomainEvent F
  invalidated : (decision_id reason : String) → DecisionDomainEvent F

pub data DecisionError (F : Type 0) : Type 0 where
  invalid_confidence : F → DecisionError F
  empty_title : DecisionError F
  invalid_transition : (from to : DecisionStatus) → DecisionError F
  missing_outcome : DecisionError F
  not_found conflict infrastructure : String → DecisionError F
