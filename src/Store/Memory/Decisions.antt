-- ===== src/Store/Memory/Decisions.antt =====
-- crates/store/src/memory/backend.rs: decisions, outcomes and evaluations.
use Prim.Native.String.{String}
use sulix_intelligence.Prelude.{
  ℕ, I64, add_i64, List, [], ◌∷◌, ◌++◌, Option, none, some, Bool, true, false, Float, filterb, find,
  any, update_first, length, str_eq, ◌==◌, if◌then◌else◌, Mut, ok, get_or,
}
use sulix_intelligence.Store.DecisionRows.{
  Decision, OutcomeEvent, NewOutcomeEvent, DecisionEvaluation, NewDecisionEvaluation,
  EvaluationResult, confirmed, partially_confirmed, contradicted, inconclusive, DecisionStats,
}
use sulix_intelligence.Store.Error.{StoreError}
use sulix_intelligence.Store.Memory.{MemoryStore}

-- The stamp of every row that the store writes itself.
abbrev pub stamp : I64
stamp = 1000000

-- What an upsert writes: all but the id and `created_at`.
abbrev pub refreshed : {F : Type 0} → Decision F → Decision F → Decision F
refreshed d existing = record existing {
  signal_thread_id = d.signal_thread_id;
  actor_id = d.actor_id;
  decision_type = d.decision_type;
  title = d.title;
  hypothesis = d.hypothesis;
  rationale = d.rationale;
  confidence = d.confidence;
  status = d.status;
  priority = d.priority;
  expected_outcomes = d.expected_outcomes;
  updated_at = d.updated_at;
}

abbrev pub has_id : {F : Type 0} → I64 → Decision F → Bool
has_id id d = d.id == id

-- `d.signal_thread_id == Some(id)`
abbrev pub is_some_id : I64 → Option I64 → Bool
is_some_id id none = false
is_some_id id (some j) = j == id

abbrev evaluation_eq : EvaluationResult → EvaluationResult → Bool
evaluation_eq confirmed confirmed = true
evaluation_eq partially_confirmed partially_confirmed = true
evaluation_eq contradicted contradicted = true
evaluation_eq inconclusive inconclusive = true
evaluation_eq _ _ = false

module _ {F : Type 0} where
  unfoldable pub find_decision : I64 → Mut (MemoryStore F) StoreError (Option (Decision F))
  find_decision id s = (ok (find (has_id id) s.decisions), s)

  unfoldable pub save_outcome : NewOutcomeEvent → Mut (MemoryStore F) StoreError I64
  save_outcome e s =
      let id = s.next_outcome_id in
      let row : OutcomeEvent = record {
        id = id;
        decision_id = e.decision_id;
        outcome_type = e.outcome_type;
        observation = e.observation;
        evidence_url = e.evidence_url;
        observed_at = get_or e.observed_at stamp;
        created_at = stamp;
      } in
      (ok id, record s { next_outcome_id = add_i64 id 1; outcomes = s.outcomes ++ row ∷ [] })

  -- The id comes from the decisions' counter.
  unfoldable pub save_evaluation : NewDecisionEvaluation F → Mut (MemoryStore F) StoreError I64
  save_evaluation e s =
      let id = s.next_decision_id in
      let row : DecisionEvaluation F = record {
        id = id;
        decision_id = e.decision_id;
        evaluation = e.evaluation;
        confidence = e.confidence;
        reasoning = e.reasoning;
        evaluator = e.evaluator;
        evaluated_at = get_or e.evaluated_at stamp;
        created_at = stamp;
      } in
      (ok id, record s { next_decision_id = add_i64 id 1; evaluations = s.evaluations ++ row ∷ [] })

  unfoldable pub upsert_decision : Decision F → Mut (MemoryStore F) StoreError (Unit {0})
  upsert_decision d s = (
    ok tt,
    record s {
      decisions =
          if any (has_id d.id) s.decisions
          then update_first (has_id d.id) (refreshed d) s.decisions
          else s.decisions ++ d ∷ [];
    },
  )

  -- `false` if the id has a row: nothing is written.
  unfoldable pub try_insert_decision : Decision F → Mut (MemoryStore F) StoreError Bool
  try_insert_decision d s =
      if any (has_id d.id) s.decisions
      then (ok false, s)
      else (ok true, record s { decisions = s.decisions ++ d ∷ [] })

  unfoldable pub next_decision_id : Mut (MemoryStore F) StoreError I64
  next_decision_id s =
      (ok s.next_decision_id, record s { next_decision_id = add_i64 s.next_decision_id 1 })

  unfoldable pub list_decisions :
      Option String → ℕ → Mut (MemoryStore F) StoreError (List (Decision F))
  list_decisions (some status) limit s = (ok (filterb (λ d. str_eq d.status status) s.decisions), s)
  list_decisions none limit s = (ok s.decisions, s)

  unfoldable pub decisions_by_signal : I64 → Mut (MemoryStore F) StoreError (List (Decision F))
  decisions_by_signal id s = (ok (filterb (λ d. is_some_id id d.signal_thread_id) s.decisions), s)

  unfoldable pub list_outcomes : I64 → Mut (MemoryStore F) StoreError (List OutcomeEvent)
  list_outcomes id s = (ok (filterb (λ o. o.decision_id == id) s.outcomes), s)

  unfoldable pub list_evaluations :
      I64 → Mut (MemoryStore F) StoreError (List (DecisionEvaluation F))
  list_evaluations id s = (ok (filterb (λ e. e.decision_id == id) s.evaluations), s)

module _ {F : Type 0} ⦃fl : Float F⦄ where
  with_status : String → MemoryStore F → I64
  with_status status s = length (filterb (λ d. str_eq d.status status) s.decisions)

  with_evaluation : EvaluationResult → MemoryStore F → I64
  with_evaluation r s = length (filterb (λ e. evaluation_eq e.evaluation r) s.evaluations)

  unfoldable pub decision_stats : Mut (MemoryStore F) StoreError (DecisionStats F)
  unfolding with_status with_evaluation
  decision_stats s = (
    ok (record {
      total_decisions = length s.decisions;
      active = with_status "active" s;
      completed = with_status "completed" s;
      superseded = with_status "superseded" s;
      by_type = [];
      by_priority = [];
      evaluation_summary = record {
        total_evaluated = length s.evaluations;
        confirmed = with_evaluation confirmed s;
        partially_confirmed = with_evaluation partially_confirmed s;
        contradicted = with_evaluation contradicted s;
        inconclusive = with_evaluation inconclusive s;
        accuracy_rate = fl.ratio 0 1;
      };
      top_signals = [];
    }),
    s,
  )
