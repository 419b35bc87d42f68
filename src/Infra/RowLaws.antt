-- ===== src/Infra/RowLaws.antt =====
-- What the row mapping of the decision adapter keeps.
use Prim.Native.String.{String, ◌++◌}
use text.Mathlib.TextPositions.{starts_with-append, slice-append_right, len-append}
use mathlib.Core.Option
use sulix_intelligence.Prelude.{I64, ◌<◌, ◌^◌, ◌≡◌, refl, ap, ◌∙◌, List, [], some, arith, ok}
use sulix_intelligence.Prelude.Decimal.{padded, parse_i64-padded}
use sulix_intelligence.Ids.{decision_id}
use sulix_intelligence.Decision.Status.{DecisionStatus}
use sulix_intelligence.Decision.Types.{ObservedOutcome}
use sulix_intelligence.Decision.Aggregate.{DecisionAggregate}
use sulix_intelligence.Decision.Ports.{OutcomeJson, ReadsBack}
use sulix_intelligence.Infra.DecisionRepository.{
  status_to_d1, status_from_d1, strip_prefix, d1_id, from_store, into_row, row_of,
  encode_expected_outcomes,
}

pub status_from_d1-status_to_d1 : (s : DecisionStatus) → status_from_d1 (status_to_d1 s) ≡ s
unfolding status_from_d1 status_to_d1
status_from_d1-status_to_d1 DecisionStatus.draft = refl
status_from_d1-status_to_d1 _ = refl

strip_prefix-append : (p s : String) → strip_prefix p (p ++ s) ≡ some s
strip_prefix-append p s = rw (starts_with-append p s, len-append p s, slice-append_right p s)

-- The adapter reads the number of every domain id below 2 ^ 64 back, so of every i64.
pub d1_id-decision_id :
    {F : Type 0} (id : I64) → id < 2 ^ 64 → d1_id {F = F} (decision_id id) ≡ ok id
unfolding d1_id decision_id Option.bind
d1_id-decision_id id h =
    rw (
      strip_prefix-append "DEC-" (padded 6 id),
      parse_i64-padded 6 id (omega arith) (omega arith) h,
    )

module _ {F : Type 0} (json : OutcomeJson) (d : DecisionAggregate F) (id : I64) where
  pub into_row-row_of :
      d.id ≡ decision_id id → id < 2 ^ 64 → into_row json d ≡ ok (row_of json d id)
  unfolding into_row
  into_row-row_of e h = rw (ap d1_id e ∙ d1_id-decision_id {F = F} id h, into_row)

  -- A row gives the aggregate of that domain id back, but for the pending events and the outcomes, which
  -- have rows of their own, if the serializer reads the expected outcomes back.
  pub from_store-row_of :
      (observed : List ObservedOutcome)
      → ReadsBack json d.expected_outcomes
      → d.id ≡ decision_id id
      → from_store json (row_of json d id) observed
        ≡ record d { observed_outcomes = observed; events = [] }
  unfolding from_store encode_expected_outcomes
  from_store-row_of observed back e = ground (arith, status_from_d1-status_to_d1 d.status, back)
