-- ===== src/Infra/MemoryPorts.antt =====
-- The ports of the adapters, filled by the in-memory store.
use sulix_intelligence.Decision.Ports.{DecisionRepository, FactStore, RowStore, OutcomeJson}
use sulix_intelligence.Infra.DecisionRepository.{d1_decision_repository}
use sulix_intelligence.Store.Memory.{MemoryStore}
use sulix_intelligence.Store.Memory.Decisions.{
  find_decision, list_outcomes, upsert_decision, try_insert_decision, decisions_by_signal,
  list_decisions, next_decision_id, save_outcome, save_evaluation,
}

module _ {F : Type 0} where
  abbrev pub memory_rows : RowStore F (MemoryStore F)
  memory_rows = record {
    find_decision = find_decision;
    list_outcomes = list_outcomes;
    upsert_decision = upsert_decision;
    try_insert_decision = try_insert_decision;
    decisions_by_signal = decisions_by_signal;
    list_decisions = list_decisions;
  }

  abbrev pub memory_facts : FactStore F (MemoryStore F)
  memory_facts = record {
    next_decision_id = next_decision_id;
    save_outcome = save_outcome;
    save_evaluation = save_evaluation;
  }

  unfoldable pub memory_repository : OutcomeJson → DecisionRepository F (MemoryStore F)
  unfolding d1_decision_repository
  memory_repository json = d1_decision_repository json memory_rows
