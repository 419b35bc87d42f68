-- ===== src/Decision/Ports.antt =====
-- crates/decision-engine/src/repository.rs and the store ports of crates/domain that the decision service and
-- the adapter are generic over. `St` is the state behind the ports; a port returns its new value.
use Prim.Native.String.{String}
use sulix_intelligence.Prelude.{ℕ, I64, Bool, List, Option, Mut, some, ◌≡◌}
use sulix_intelligence.Decision.Types.{ExpectedOutcome, DecisionError}
use sulix_intelligence.Decision.Aggregate.{DecisionAggregate}
use sulix_intelligence.Store.DecisionRows.{
  Decision, OutcomeEvent, NewOutcomeEvent, NewDecisionEvaluation,
}
use sulix_intelligence.Store.Error.{StoreError}

-- The aggregate's own repository.
pub record DecisionRepository (F St : Type 0) : Type 0 where
  pub save : DecisionAggregate F → Mut St (DecisionError F) (Unit {0})
  pub save_new : DecisionAggregate F → Mut St (DecisionError F) Bool
  pub find : String → Mut St (DecisionError F) (Option (DecisionAggregate F))

-- `DecisionIdSource + OutcomeRepository + EvaluationRepository`
pub record FactStore (F St : Type 0) : Type 0 where
  pub next_decision_id : Mut St StoreError I64
  pub save_outcome : NewOutcomeEvent → Mut St StoreError I64
  pub save_evaluation : NewDecisionEvaluation F → Mut St StoreError I64

-- `DecisionRepository + DecisionQueryService + DecisionUpsertStore`, the ports of the D1 adapter.
pub record RowStore (F St : Type 0) : Type 0 where
  pub find_decision : I64 → Mut St StoreError (Option (Decision F))
  pub list_outcomes : I64 → Mut St StoreError (List OutcomeEvent)
  pub upsert_decision : Decision F → Mut St StoreError (Unit {0})
  pub try_insert_decision : Decision F → Mut St StoreError Bool
  pub decisions_by_signal : I64 → Mut St StoreError (List (Decision F))
  pub list_decisions : Option String → ℕ → Mut St StoreError (List (Decision F))

-- `serde_json` at `Vec<ExpectedOutcome>`: `to_string`, and `from_str` with its error dropped.
pub record OutcomeJson : Type 0 where
  pub to_text : List ExpectedOutcome → String
  pub from_text : String → Option (List ExpectedOutcome)

-- What is printed of these outcomes is read back.
abbrev pub ReadsBack : OutcomeJson → List ExpectedOutcome → Type 0
ReadsBack json xs = json.from_text (json.to_text xs) ≡ some xs
