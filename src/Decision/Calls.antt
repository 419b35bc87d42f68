-- ===== src/Decision/Calls.antt =====
-- Histories of a decision: sequences of calls of the aggregate's methods, each with its clock reading.
use sulix_intelligence.Prelude.{I64, List, [], ◌∷◌, ◌++◌, ok}
use sulix_intelligence.Decision.Types.{
  ApproveDecision, ExecuteDecision, RecordOutcome, InvalidateDecision, DecisionDomainEvent,
}
use sulix_intelligence.Decision.Aggregate.{
  DecisionAggregate, Updated, approve, execute, attach_outcome, complete, invalidate, drain_events,
}

pub data Call : Type 0 where
  approves : ApproveDecision → Call
  executes : ExecuteDecision → Call
  attaches : RecordOutcome → Call
  completes : Call
  invalidates : InvalidateDecision → Call
  drains : Call

module _ {F : Type 0} where
  unfoldable pub call : Call → I64 → DecisionAggregate F → Updated F
  unfolding approve execute attach_outcome complete invalidate drain_events
  call (approves cmd) now d = approve cmd now d
  call (executes cmd) now d = execute cmd now d
  call (attaches cmd) now d = (ok tt, attach_outcome cmd now d)
  call completes now d = complete now d
  call (invalidates cmd) now d = invalidate cmd now d
  call drains now d = (ok tt, (drain_events d).1)

  -- The events that a call hands to the application service.
  unfoldable pub handed : Call → DecisionAggregate F → List (DecisionDomainEvent F)
  unfolding drain_events
  handed drains d = (drain_events d).0
  handed c d = []

  unfoldable pub run : DecisionAggregate F → List (I64 × Call) → DecisionAggregate F
  unfolding call
  run d [] = d
  run d ((now, c) ∷ cs) = run (call c now d).1 cs

  unfoldable pub handed_all : DecisionAggregate F → List (I64 × Call) → List (DecisionDomainEvent F)
  unfolding call handed
  handed_all d [] = []
  handed_all d ((now, c) ∷ cs) = handed c d ++ handed_all (call c now d).1 cs
