-- ===== src/Infra/DecisionRepository.antt =====
-- crates/infrastructure/src/decision_repository.rs: the decision repository over the rows of a store.
use Prim.Native.String.{String, len, slice}
use text.Mathlib.Text.{starts_with}
use mathlib.Core.Option
use sulix_intelligence.Prelude.{
  ℕ, I64, List, [], ◌∷◌, Option, none, some, map, Bool, is_positive, get_or, str_eq, if◌then◌else◌,
  Mut, Result, ok, err, ok_or, ◌>>=◌, return, lift, mapping,
}
use sulix_intelligence.Prelude.Decimal.{parse_i64}
use sulix_intelligence.Ids.{decision_id}
use sulix_intelligence.Decision.Status.{
  DecisionStatus, draft, proposed, approved, executing, completed, invalidated,
}
use sulix_intelligence.Decision.Types.{
  ExpectedOutcome, ObservedOutcome, OutcomeVerdict, DecisionError, not_found, infrastructure,
}
use sulix_intelligence.Decision.Aggregate.{DecisionAggregate, reconstruct}
use sulix_intelligence.Decision.Ports.{DecisionRepository, RowStore, OutcomeJson}
use sulix_intelligence.Store.DecisionRows.{Decision, OutcomeEvent}
use sulix_intelligence.Store.Error.{error_text}

unfoldable pub status_to_d1 : DecisionStatus → String
status_to_d1 draft = "draft"
status_to_d1 proposed = "proposed"
status_to_d1 approved = "approved"
status_to_d1 executing = "active"
status_to_d1 completed = "completed"
status_to_d1 invalidated = "superseded"

unfoldable pub status_from_d1 : String → DecisionStatus
status_from_d1 s =
    if str_eq s "draft"
    then draft
    else if str_eq s "proposed"
    then proposed
    else if str_eq s "approved"
    then approved
    else if str_eq s "active"
    then executing
    else if str_eq s "completed"
    then completed
    else if str_eq s "superseded"
    then invalidated
    else if str_eq s "invalidated"
    then invalidated
    else draft

-- `str::strip_prefix`
abbrev pub strip_prefix : String → String → Option String
strip_prefix prefix s = if starts_with s prefix then some (slice s (len prefix) (len s)) else none

unfoldable pub d1_id : {F : Type 0} → String → Result (DecisionError F) I64
d1_id id = ok_or (Option.bind (strip_prefix "DEC-" id) parse_i64) (not_found id)

unfoldable pub from_outcome : OutcomeEvent → ObservedOutcome
from_outcome e = record {
  metric = e.outcome_type;
  actual_value = e.observation;
  outcome_type = OutcomeVerdict.inconclusive;
  evidence_url = e.evidence_url;
  observed_at = if is_positive e.observed_at then e.observed_at else e.created_at;
}

module _ (json : OutcomeJson) where
  -- crates/decision-engine/src/outcome.rs
  unfoldable pub encode_expected_outcomes : List ExpectedOutcome → String
  encode_expected_outcomes outcomes = json.to_text outcomes

  unfoldable pub decode_expected_outcomes : Option String → List ExpectedOutcome
  decode_expected_outcomes none = []
  decode_expected_outcomes (some raw) = get_or (json.from_text raw) []

module _ {F : Type 0} (json : OutcomeJson) where
  unfoldable pub from_store : Decision F → List ObservedOutcome → DecisionAggregate F
  unfolding status_from_d1 decode_expected_outcomes reconstruct decision_id
  from_store d observed = reconstruct (record {
    id = decision_id d.id;
    title = d.title;
    hypothesis = d.hypothesis;
    confidence = d.confidence;
    status = status_from_d1 d.status;
    rationale = d.rationale;
    decision_type = d.decision_type;
    priority = d.priority;
    signal_thread_id = d.signal_thread_id;
    actor_id = d.actor_id;
    expected_outcomes = decode_expected_outcomes json d.expected_outcomes;
    observed_outcomes = observed;
    created_at = d.created_at;
    updated_at = d.updated_at;
  })

  abbrev pub row_of : DecisionAggregate F → I64 → Decision F
  row_of d id = record {
    id = id;
    signal_thread_id = d.signal_thread_id;
    actor_id = d.actor_id;
    decision_type = d.decision_type;
    title = d.title;
    hypothesis = d.hypothesis;
    rationale = d.rationale;
    confidence = d.confidence;
    status = status_to_d1 d.status;
    priority = d.priority;
    expected_outcomes = some (encode_expected_outcomes json d.expected_outcomes);
    created_at = d.created_at;
    updated_at = d.updated_at;
  }

  unfoldable pub into_row : DecisionAggregate F → Result (DecisionError F) (Decision F)
  unfolding status_to_d1 encode_expected_outcomes
  into_row d = elim (d1_id d.id) [ ok id ↦ ok (row_of d id) | err e ↦ err e ]

module _ {F St : Type 0} (json : OutcomeJson) (rows : RowStore F St) where
  unfoldable pub load_outcomes : I64 → Mut St (DecisionError F) (List ObservedOutcome)
  unfolding from_outcome error_text
  load_outcomes id = do
    events ← mapping (λ e. infrastructure (error_text e)) (rows.list_outcomes id)
    return (map from_outcome events)

  unfoldable pub save : DecisionAggregate F → Mut St (DecisionError F) (Unit {0})
  unfolding into_row error_text
  save d = do
    row ← lift (into_row json d)
    mapping (λ e. infrastructure (error_text e)) (rows.upsert_decision row)

  unfoldable pub save_new : DecisionAggregate F → Mut St (DecisionError F) Bool
  unfolding into_row error_text
  save_new d = do
    row ← lift (into_row json d)
    mapping (λ e. infrastructure (error_text e)) (rows.try_insert_decision row)

  abbrev pub hydrate : Decision F → Mut St (DecisionError F) (DecisionAggregate F)
  hydrate row = do observed ← load_outcomes row.id; return (from_store json row observed)

  abbrev pub found_row :
      Option (Decision F) → Mut St (DecisionError F) (Option (DecisionAggregate F))
  found_row none = return none
  found_row (some row) = do d ← hydrate row; return (some d)

  unfoldable pub find : String → Mut St (DecisionError F) (Option (DecisionAggregate F))
  unfolding load_outcomes from_store error_text
  find id = do
    d1 ← lift (d1_id id)
    row ← mapping (λ e. infrastructure (error_text e)) (rows.find_decision d1)
    found_row row

  hydrate_all : List (Decision F) → Mut St (DecisionError F) (List (DecisionAggregate F))
  unfolding load_outcomes from_store
  hydrate_all [] = return []
  hydrate_all (row ∷ more) = do d ← hydrate row; ds ← hydrate_all more; return (d ∷ ds)

  unfoldable pub find_by_signal : I64 → Mut St (DecisionError F) (List (DecisionAggregate F))
  unfolding hydrate_all error_text
  find_by_signal id = do
    found ← mapping (λ e. infrastructure (error_text e)) (rows.decisions_by_signal id)
    hydrate_all found

  unfoldable pub list : Option String → ℕ → Mut St (DecisionError F) (List (DecisionAggregate F))
  unfolding hydrate_all error_text
  list status limit = do
    found ← mapping (λ e. infrastructure (error_text e)) (rows.list_decisions status limit)
    hydrate_all found

  unfoldable pub d1_decision_repository : DecisionRepository F St
  unfolding save save_new find
  d1_decision_repository = record { save = save; save_new = save_new; find = find }
