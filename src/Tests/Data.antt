-- ===== src/Tests/Data.antt =====
-- Concrete commands, rows and stores, with thousandths for f64.
use Prim.Native.String.{String}
use sulix_intelligence.Prelude.{ℕ, ◌+◌, I64, List, [], ◌∷◌, none, some, milli}
use sulix_intelligence.Ids.{decision_id}
use sulix_intelligence.Decision.Status.{DecisionStatus}
use sulix_intelligence.Decision.Types.{ExpectedOutcome, ProposeDecision}
use sulix_intelligence.Decision.Aggregate.{DecisionAggregate}
use sulix_intelligence.Decision.Ports.{OutcomeJson}
use sulix_intelligence.Store.DecisionRows.{Decision, NewOutcomeEvent}
use sulix_intelligence.Store.Memory.{MemoryStore, new}
use sulix_intelligence.Service.Decision.{Clock}

abbrev pub goal : ExpectedOutcome
goal = record { metric = "users"; expected_value = "100"; measurement_method = "count" }

-- A serializer that knows one list.
abbrev pub one_list : OutcomeJson
one_list = record { to_text = λ xs. "[users]"; from_text = λ s. some (goal ∷ []) }

abbrev pub ship_it : ProposeDecision ℕ
ship_it = record {
  id = 1;
  title = "Ship it";
  hypothesis = some "Users will like it";
  confidence = 800;
  rationale = none;
  decision_type = "strategic";
  priority = "high";
  signal_thread_id = none;
  actor_id = none;
  expected_outcomes = goal ∷ [];
}

abbrev pub ticks : Clock
ticks k = 100 + k

abbrev pub row : I64 → String → Decision ℕ
row id status = record {
  id = id;
  signal_thread_id = none;
  actor_id = none;
  decision_type = "strategic";
  title = "Ship it";
  hypothesis = some "Users will like it";
  rationale = none;
  confidence = 800;
  status = status;
  priority = "high";
  expected_outcomes = some "[users]";
  created_at = 1;
  updated_at = 1;
}

abbrev pub empty_store : MemoryStore ℕ
empty_store = record (new {F = ℕ}) { next_decision_id = 1 }

abbrev pub store_with : List (Decision ℕ) → MemoryStore ℕ
store_with ds = record empty_store { decisions = ds }

abbrev pub growth : NewOutcomeEvent
growth = record {
  decision_id = 7;
  outcome_type = "users";
  observation = "120";
  evidence_url = none;
  observed_at = some 50;
}

abbrev pub aggregate : DecisionStatus → DecisionAggregate ℕ
aggregate status = record {
  id = decision_id 7;
  title = "Ship it";
  hypothesis = some "Users will like it";
  confidence = 800;
  status = status;
  rationale = none;
  decision_type = "strategic";
  priority = "high";
  signal_thread_id = none;
  actor_id = none;
  expected_outcomes = goal ∷ [];
  observed_outcomes = [];
  created_at = 1;
  updated_at = 2;
  events = [];
}
