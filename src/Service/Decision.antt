-- ===== src/Service/Decision.antt =====
-- crates/application/src/services/decision.rs: the decision service over any repository and any store. The
-- k-th reading of the wall clock in a call is `clock k`.
use Prim.Native.String.{String}
use sulix_intelligence.Prelude.{
  ℕ, zero, suc, ◌+◌, I64, List, [], none, some, Bool, true, false, Float, get_or, if◌then◌else◌,
  Mut, ok, err, ◌>>=◌, ◌>>◌, return, fail, lift, mapping,
}
use sulix_intelligence.Ids.{decision_id}
use sulix_intelligence.Decision.Status.{
  DecisionStatus, approved, executing, completed, invalidated, status_eq,
}
use sulix_intelligence.Decision.Types.{
  ObservedOutcome, OutcomeVerdict, ProposeDecision, DecisionDomainEvent, DecisionError, conflict,
  not_found, infrastructure,
}
use sulix_intelligence.Decision.Aggregate.{
  DecisionAggregate, Updated, propose, approve, execute, attach_outcome, complete, invalidate,
  drain_events,
}
use sulix_intelligence.Decision.Ports.{DecisionRepository, FactStore}
use sulix_intelligence.Store.DecisionRows.{NewOutcomeEvent, NewDecisionEvaluation}
use sulix_intelligence.Store.Error.{StoreError, error_text}

abbrev pub Clock : Type 0
Clock = ℕ → I64

pub data DecisionLifecycleCommand : Type 0 where
  approve_it execute_it complete_it : DecisionLifecycleCommand
  invalidate_it : String → DecisionLifecycleCommand

unfoldable pub target : DecisionLifecycleCommand → DecisionStatus
target approve_it = approved
target execute_it = executing
target complete_it = completed
target (invalidate_it reason) = invalidated

pub record CreatedDecision (F : Type 0) : Type 0 where
  pub decision_id : I64
  pub aggregate : DecisionAggregate F
  pub events : List (DecisionDomainEvent F)

pub record LifecycleTransition (F : Type 0) : Type 0 where
  pub decision_id : I64
  pub aggregate : DecisionAggregate F
  pub events : List (DecisionDomainEvent F)
  pub transitioned : Bool

pub record OutcomeRecording (F : Type 0) : Type 0 where
  pub outcome_id : I64
  pub decision_id : I64
  pub aggregate : DecisionAggregate F
  pub completed : Bool
  pub events : List (DecisionDomainEvent F)

pub record EvaluationRecording : Type 0 where
  pub evaluation_id : I64
  pub decision_id : I64

abbrev pub create_retries : ℕ
create_retries = 4

unfoldable pub observed_outcome : NewOutcomeEvent → I64 → ObservedOutcome
observed_outcome e now = record {
  metric = e.outcome_type;
  actual_value = e.observation;
  outcome_type = OutcomeVerdict.inconclusive;
  evidence_url = e.evidence_url;
  observed_at = get_or e.observed_at now;
}

-- `aggregate.method(…)?`
abbrev pub method : {F St : Type 0} → Updated F → Mut St (DecisionError F) (DecisionAggregate F)
method (ok done, d) = return d
method (err e, d) = fail e

unfoldable pub apply_command :
    {F : Type 0} → DecisionLifecycleCommand → String → I64 → DecisionAggregate F → Updated F
unfolding approve execute complete invalidate
apply_command approve_it id now d =
    approve (record { decision_id = id; approved_by = "system" }) now d
apply_command execute_it id now d = execute (record { decision_id = id }) now d
apply_command complete_it id now d = complete now d
apply_command (invalidate_it reason) id now d =
    invalidate (record { decision_id = id; reason = reason }) now d

abbrev pub infra : {F : Type 0} → StoreError → DecisionError F
infra e = infrastructure (error_text e)

module _ {F St : Type 0} (repo : DecisionRepository F St) (store : FactStore F St) where
  unfoldable pub load : String → Mut St (DecisionError F) (DecisionAggregate F)
  load id = do found ← repo.find id; elim found [ none ↦ fail (not_found id) | some d ↦ return d ]

  -- The tail of `transition`: the method, the save, and the drain after it.
  abbrev pub advance :
      I64
      → DecisionLifecycleCommand
      → I64
      → DecisionAggregate F
      → Mut St (DecisionError F) (LifecycleTransition F)
  advance id command now d = do
    d' ← method (apply_command command (decision_id id) now d)
    repo.save d'
    let (events, drained) = drain_events d'
    return (record { decision_id = id; aggregate = drained; events = events; transitioned = true })

  unfoldable pub transition :
      I64 → DecisionLifecycleCommand → I64 → Mut St (DecisionError F) (LifecycleTransition F)
  unfolding load target apply_command drain_events decision_id
  transition id command now = do
    d ← load (decision_id id)
    if status_eq d.status (target command)
        then return (record { decision_id = id; aggregate = d; events = []; transitioned = false })
        else advance id command now d

  -- The tail of `record_outcome` for a decision that is executing.
  abbrev pub complete_with :
      NewOutcomeEvent
      → Clock
      → I64
      → DecisionAggregate F
      → Mut St (DecisionError F) (OutcomeRecording F)
  complete_with outcome clock outcome_id d = do
    let id = decision_id outcome.decision_id
    let observed = observed_outcome outcome (clock 0)
    let attached = attach_outcome (record { decision_id = id; outcome = observed }) (clock 1) d
    d' ← method (complete (clock 2) attached)
    repo.save d'
    let (events, drained) = drain_events d'
    return (record {
      outcome_id = outcome_id;
      decision_id = outcome.decision_id;
      aggregate = drained;
      completed = true;
      events = events;
    })

  unfoldable pub record_outcome :
      NewOutcomeEvent → Clock → Mut St (DecisionError F) (OutcomeRecording F)
  unfolding load observed_outcome attach_outcome complete drain_events decision_id error_text
  record_outcome outcome clock = do
    d ← load (decision_id outcome.decision_id)
    outcome_id ← mapping infra (store.save_outcome outcome)
    if status_eq d.status executing
        then complete_with outcome clock outcome_id d
        else return (record {
          outcome_id = outcome_id;
          decision_id = outcome.decision_id;
          aggregate = d;
          completed = false;
          events = [];
        })

  unfoldable pub record_evaluation :
      NewDecisionEvaluation F → Mut St (DecisionError F) EvaluationRecording
  unfolding error_text
  record_evaluation evaluation = do
    evaluation_id ← mapping infra (store.save_evaluation evaluation)
    return (record { evaluation_id = evaluation_id; decision_id = evaluation.decision_id })

module _ {F St : Type 0} where
  unfoldable pub created : I64 → DecisionAggregate F → Mut St (DecisionError F) (CreatedDecision F)
  unfolding drain_events
  created id d =
      let (events, drained) = drain_events d in
      return (record { decision_id = id; aggregate = drained; events = events })

module _ {F St : Type 0} ⦃fl : Float F⦄ where
  -- The aggregate that one attempt makes: proposed, approved and started.
  unfoldable pub started :
      ProposeDecision F → Clock → Mut St (DecisionError F) (DecisionAggregate F)
  unfolding propose approve execute
  started cmd clock = do
    d ← lift (propose cmd (clock 0))
    d' ← method (approve (record { decision_id = d.id; approved_by = "system" }) (clock 1) d)
    method (execute (record { decision_id = d'.id }) (clock 2) d')

module _ {F St : Type 0} ⦃fl : Float F⦄ (repo : DecisionRepository F St)
    (store : FactStore F St) where
  -- The retry loop, by the attempts left. An attempt reads the clock three times.
  unfoldable pub create_loop :
      ℕ → ProposeDecision F → Clock → Mut St (DecisionError F) (CreatedDecision F)
  unfolding error_text created
  create_loop zero cmd clock =
      fail (conflict "decision id allocation exhausted after repeated create collisions")
  create_loop (suc attempts) cmd clock = do
    id ← mapping infra store.next_decision_id
    d ← started (record cmd { id = id }) clock
    saved ← repo.save_new d
    elim saved [ true ↦ created id d | false ↦ create_loop attempts cmd (λ k. clock (k + 3)) ]

  unfoldable pub create : ProposeDecision F → Clock → Mut St (DecisionError F) (CreatedDecision F)
  unfolding create_loop
  create cmd clock = create_loop create_retries cmd clock
