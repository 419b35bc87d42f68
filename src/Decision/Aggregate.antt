-- ===== src/Decision/Aggregate.antt =====
-- crates/decision-engine/src/aggregate.rs: the Decision aggregate. A method on `&mut self` returns the new
-- aggregate with its result; the wall clock is the argument `now`.
use Prim.Native.String.{String}
use sulix_intelligence.Prelude.{
  I64, List, [], ◌∷◌, ◌++◌, Option, not, ◌&&◌, Float, in_unit, str_eq, is_empty, length,
  if◌then◌else◌, Result, ok, err,
}
use sulix_intelligence.Ids.{decision_id}
use sulix_intelligence.Decision.Status.{DecisionStatus, can_transition_to, status_eq}
use sulix_intelligence.Decision.Types.{
  ExpectedOutcome, OutcomeVerdict, ObservedOutcome, ProposeDecision, ReconstructDecision,
  ApproveDecision, ExecuteDecision, RecordOutcome, InvalidateDecision, DecisionDomainEvent,
  DecisionError, empty_title, invalid_confidence, invalid_transition, missing_outcome,
}

pub record DecisionAggregate (F : Type 0) : Type 0 where
  pub id : String
  pub title : String
  pub hypothesis : Option String
  pub confidence : F
  pub status : DecisionStatus
  pub rationale : Option String
  pub decision_type : String
  pub priority : String
  pub signal_thread_id : Option I64
  pub actor_id : Option I64
  pub expected_outcomes : List ExpectedOutcome
  pub observed_outcomes : List ObservedOutcome
  pub created_at : I64
  pub updated_at : I64
  pub events : List (DecisionDomainEvent F)

-- What a `&mut self` method of the aggregate returns.
abbrev pub Updated : Type 0 → Type 0
Updated F = Result (DecisionError F) (Unit {0}) × DecisionAggregate F

-- `format!("{:?}", verdict).to_lowercase()`
unfoldable pub verdict_text : OutcomeVerdict → String
verdict_text OutcomeVerdict.achieved = "achieved"
verdict_text OutcomeVerdict.missed = "missed"
verdict_text OutcomeVerdict.inconclusive = "inconclusive"

module _ {F : Type 0} where
  unfoldable pub reconstruct : ReconstructDecision F → DecisionAggregate F
  reconstruct cmd = record {
    id = cmd.id;
    title = cmd.title;
    hypothesis = cmd.hypothesis;
    confidence = cmd.confidence;
    status = cmd.status;
    rationale = cmd.rationale;
    decision_type = cmd.decision_type;
    priority = cmd.priority;
    signal_thread_id = cmd.signal_thread_id;
    actor_id = cmd.actor_id;
    expected_outcomes = cmd.expected_outcomes;
    observed_outcomes = cmd.observed_outcomes;
    created_at = cmd.created_at;
    updated_at = cmd.updated_at;
    events = [];
  }

  -- The event that a transition to `to` records; a generic one unless the target has its own.
  unfoldable pub transition_event :
      DecisionAggregate F → DecisionStatus → DecisionStatus → List (DecisionDomainEvent F)
  transition_event d from DecisionStatus.completed =
      DecisionDomainEvent.completed d.id (length d.observed_outcomes) ∷ []
  transition_event d from DecisionStatus.invalidated = []
  transition_event d from to = DecisionDomainEvent.status_changed d.id from to ∷ []

  unfoldable pub transition : DecisionAggregate F → DecisionStatus → I64 → Updated F
  unfolding can_transition_to status_eq transition_event
  transition d target now =
      if not (can_transition_to d.status target)
      then (err (invalid_transition d.status target), d)
      else if status_eq target DecisionStatus.completed && is_empty d.observed_outcomes
      then (err missing_outcome, d)
      else (
        ok tt,
        record d {
          status = target;
          updated_at = now;
          events = d.events ++ transition_event d d.status target;
        },
      )

  unfoldable pub transition_with_event :
      DecisionAggregate F → DecisionStatus → DecisionDomainEvent F → I64 → Updated F
  unfolding can_transition_to
  transition_with_event d target event now =
      if not (can_transition_to d.status target)
      then (err (invalid_transition d.status target), d)
      else (ok tt, record d { status = target; updated_at = now; events = d.events ++ event ∷ [] })

  unfoldable pub approve : ApproveDecision → I64 → DecisionAggregate F → Updated F
  unfolding transition_with_event
  approve cmd now d =
      transition_with_event d DecisionStatus.approved
        (DecisionDomainEvent.approved d.id cmd.approved_by) now

  unfoldable pub execute : ExecuteDecision → I64 → DecisionAggregate F → Updated F
  unfolding transition
  execute cmd now d = transition d DecisionStatus.executing now

  unfoldable pub attach_outcome : RecordOutcome → I64 → DecisionAggregate F → DecisionAggregate F
  unfolding verdict_text
  attach_outcome cmd now d = record d {
    observed_outcomes = d.observed_outcomes ++ cmd.outcome ∷ [];
    updated_at = now;
    events =
        d.events
        ++ DecisionDomainEvent.outcome_attached d.id cmd.outcome.metric
            (verdict_text cmd.outcome.outcome_type)
          ∷ [];
  }

  unfoldable pub complete : I64 → DecisionAggregate F → Updated F
  unfolding transition
  complete now d =
      if is_empty d.observed_outcomes
      then (err missing_outcome, d)
      else transition d DecisionStatus.completed now

  unfoldable pub invalidate : InvalidateDecision → I64 → DecisionAggregate F → Updated F
  unfolding transition_with_event
  invalidate cmd now d =
      transition_with_event d DecisionStatus.invalidated
        (DecisionDomainEvent.invalidated d.id cmd.reason) now

  -- `std::mem::take`
  unfoldable pub drain_events :
      DecisionAggregate F → List (DecisionDomainEvent F) × DecisionAggregate F
  drain_events d = (d.events, record d { events = [] })

module _ {F : Type 0} ⦃fl : Float F⦄ where
  unfoldable pub propose : ProposeDecision F → I64 → Result (DecisionError F) (DecisionAggregate F)
  unfolding decision_id
  propose cmd now =
      if str_eq cmd.title ""
      then err empty_title
      else if not (in_unit cmd.confidence)
      then err (invalid_confidence cmd.confidence)
      else ok (record {
        id = decision_id cmd.id;
        title = cmd.title;
        hypothesis = cmd.hypothesis;
        confidence = cmd.confidence;
        status = DecisionStatus.proposed;
        rationale = cmd.rationale;
        decision_type = cmd.decision_type;
        priority = cmd.priority;
        signal_thread_id = cmd.signal_thread_id;
        actor_id = cmd.actor_id;
        expected_outcomes = cmd.expected_outcomes;
        observed_outcomes = [];
        created_at = now;
        updated_at = now;
        events =
            DecisionDomainEvent.proposed (decision_id cmd.id) cmd.title cmd.confidence
              cmd.decision_type
            ∷ [];
      })
