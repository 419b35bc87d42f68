-- ===== src/Tests/Decisions.antt =====
-- Histories of a concrete decision.
use sulix_intelligence.Prelude.{ℕ, I64, ◌≡◌, ◌≤◌, refl, List, [], ◌∷◌, ◌++◌, none, some, milli, inl}
use sulix_intelligence.Ids.{decision_id}
use sulix_intelligence.Decision.Status.{proposed, completed, rank}
use sulix_intelligence.Decision.Types.{DecisionDomainEvent, ObservedOutcome, OutcomeVerdict}
use sulix_intelligence.Decision.Aggregate.{DecisionAggregate, propose}
use sulix_intelligence.Decision.Calls.{
  Call, approves, executes, attaches, completes, invalidates, drains, run, handed_all,
}
use sulix_intelligence.Decision.Lifecycle.{IsValid, propose-run-IsValid, run-rank, run-IsTerminal}
use sulix_intelligence.Decision.EventLog.{emission_all, handed_all-run}
use sulix_intelligence.Tests.Data.{ship_it, aggregate, goal}

abbrev seen : ObservedOutcome
seen = record {
  metric = "users";
  actual_value = "120";
  outcome_type = OutcomeVerdict.achieved;
  evidence_url = none;
  observed_at = 60;
}

abbrev history : List (I64 × Call)
history =
    (10, approves (record { decision_id = decision_id 7; approved_by = "system" }))
    ∷ (11, executes (record { decision_id = decision_id 7 }))
    ∷ (12, drains)
    ∷ (13, completes)
    ∷ (14, attaches (record { decision_id = decision_id 7; outcome = seen }))
    ∷ (15, completes)
    ∷ (16, invalidates (record { decision_id = decision_id 7; reason = "late" }))
    ∷ []

abbrev shipped : DecisionAggregate ℕ
shipped = record {
  id = decision_id 1;
  title = "Ship it";
  hypothesis = some "Users will like it";
  confidence = 800;
  status = proposed;
  rationale = none;
  decision_type = "strategic";
  priority = "high";
  signal_thread_id = none;
  actor_id = none;
  expected_outcomes = goal ∷ [];
  observed_outcomes = [];
  created_at = 5;
  updated_at = 5;
  events = DecisionDomainEvent.proposed (decision_id 1) "Ship it" 800 "strategic" ∷ [];
}

history_end : (run (aggregate proposed) history).status ≡ completed
unfolding run
history_end = refl

propose-run-IsValid_example : IsValid (run shipped history)
unfolding propose
propose-run-IsValid_example = propose-run-IsValid ship_it 5 shipped history refl

run-rank_example : rank proposed ≤ rank (run (aggregate proposed) history).status
run-rank_example = run-rank (aggregate proposed) history

run-IsTerminal_example : (run (aggregate completed) history).status ≡ completed
run-IsTerminal_example = run-IsTerminal (aggregate completed) history (inl refl)

handed_all-run_example :
    handed_all (aggregate proposed) history ++ (run (aggregate proposed) history).events
    ≡ [] ++ emission_all (aggregate proposed) history
handed_all-run_example = handed_all-run (aggregate proposed) history
