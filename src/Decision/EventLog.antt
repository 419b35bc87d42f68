-- ===== src/Decision/EventLog.antt =====
-- The events of the Decision aggregate over a history: what is recorded, and what is handed over.
use mathlib.Core.List.{append_assoc, append-nil}
use sulix_intelligence.Prelude.{
  I64, ◌≡◌, refl, sym, ap, ◌∙◌, arith, not, ◌&&◌, ◌||◌, List, [], ◌∷◌, ◌++◌, is_empty, length,
  if◌then◌else◌,
}
use sulix_intelligence.Decision.Status.{DecisionStatus, status_eq}
use sulix_intelligence.Decision.Types.{DecisionDomainEvent}
use sulix_intelligence.Decision.Aggregate.{DecisionAggregate, verdict_text}
use sulix_intelligence.Decision.Calls.{
  Call, approves, executes, attaches, completes, invalidates, drains, call, handed, run, handed_all,
}

module _ {F : Type 0} where
  -- What a call is to record, by the status and the outcomes alone.
  abbrev pub emission : Call → DecisionAggregate F → List (DecisionDomainEvent F)
  emission (approves cmd) d =
      if status_eq d.status DecisionStatus.proposed
      then DecisionDomainEvent.approved d.id cmd.approved_by ∷ []
      else []
  emission (executes cmd) d =
      if status_eq d.status DecisionStatus.approved
      then DecisionDomainEvent.status_changed d.id DecisionStatus.approved DecisionStatus.executing
        ∷ []
      else []
  emission (attaches cmd) d =
      DecisionDomainEvent.outcome_attached d.id cmd.outcome.metric
        (verdict_text cmd.outcome.outcome_type)
      ∷ []
  emission completes d =
      if status_eq d.status DecisionStatus.executing && not (is_empty d.observed_outcomes)
      then DecisionDomainEvent.completed d.id (length d.observed_outcomes) ∷ []
      else []
  emission (invalidates cmd) d =
      if status_eq d.status DecisionStatus.proposed || status_eq d.status DecisionStatus.executing
      then DecisionDomainEvent.invalidated d.id cmd.reason ∷ []
      else []
  emission drains d = []

  abbrev pub emission_all : DecisionAggregate F → List (I64 × Call) → List (DecisionDomainEvent F)
  emission_all d [] = []
  emission_all d ((now, c) ∷ cs) = emission c d ++ emission_all (call c now d).1 cs

  handed-call :
      (c : Call) (now : I64) (d : DecisionAggregate F)
      → handed c d ++ (call c now d).1.events ≡ d.events ++ emission c d
  unfolding call handed status_eq
  handed-call drains now d = refl
  handed-call c now d = ground (arith, append-nil d.events)

  -- Over any history the events handed over and those pending are, in order, the events that were
  -- pending at the start and one for each call that took effect.
  pub handed_all-run :
      (d : DecisionAggregate F) (cs : List (I64 × Call))
      → handed_all d cs ++ (run d cs).events ≡ d.events ++ emission_all d cs
  unfolding handed_all run
  handed_all-run d [] = sym (append-nil d.events)
  handed_all-run d ((now, c) ∷ cs) =
      append_assoc (handed c d) _ _
      ∙ ap (◌++◌ (handed c d)) (handed_all-run (call c now d).1 cs)
      ∙ sym (append_assoc (handed c d) _ _)
      ∙ ap (λ es. es ++ emission_all (call c now d).1 cs) (handed-call c now d)
      ∙ append_assoc d.events _ _
