-- ===== src/Tests/Tables.antt =====
-- The table of decisions under a sequence of calls, and the timeline of a signal, on concrete rows.
use Prim.Native.String.{String}
use sulix_intelligence.Prelude.{
  ℕ, I64, ◌≡◌, ◌≤◌, refl, List, [], ◌∷◌, some, none, ok, milli, ◌+◌, true, false, find,
}
use sulix_intelligence.Store.Memory.{new}
use sulix_intelligence.Store.Memory.Decisions.{
  has_id, upsert_decision, try_insert_decision, find_decision,
}
use sulix_intelligence.Store.DecisionTable.{
  TableCall, upsert, try_insert, lookup, done, inserted, found, Rows, store_call, store_answers,
  map_answers, store_answers-map_answers,
}
use sulix_intelligence.Store.DecisionRace.{wins, wins-store_answers}
use sulix_intelligence.Signals.Models.{SignalTimelineEvent}
use sulix_intelligence.Signals.Query.Detail.{PayloadTexts, merge_timeline, merge_signal_events}
use sulix_intelligence.Signals.Query.Timeline.{IsOutcome, merge_signal_events-IsOutcome}
use sulix_intelligence.Signals.Ports.{SignalEvent, SignalEventLog}
use sulix_intelligence.Signals.Query.{SignalQuery}
use sulix_intelligence.Tests.Data.{row, empty_store, store_with}

-- Two creators race for the id 7, a third call updates the row and a fourth reads it.
abbrev race : List (TableCall ℕ)
race =
    try_insert (row 7 "proposed")
    ∷ try_insert (row 7 "approved")
    ∷ upsert (row 7 "executing")
    ∷ lookup 7
    ∷ []

race_run :
    store_answers race empty_store
    ≡ inserted true ∷ inserted false ∷ done ∷ found (some (row 7 "executing")) ∷ []
unfolding store_answers store_call new upsert_decision try_insert_decision find_decision
race_run = refl

abbrev stored : Rows ℕ
stored id = find (has_id id) (row 5 "approved" ∷ [])

store_answers-map_answers_example :
    store_answers race (store_with (row 5 "approved" ∷ [])) ≡ map_answers race stored
store_answers-map_answers_example =
    store_answers-map_answers race (store_with (row 5 "approved" ∷ [])) stored (λ id. refl)

wins-store_answers_example : wins 7 race (store_answers race empty_store) ≤ 1
wins-store_answers_example = wins-store_answers 7 race empty_store

abbrev event : I64 → String → SignalTimelineEvent ℕ
event timestamp event_type = record {
  timestamp = timestamp;
  event_type = event_type;
  score = 500;
  article_count = 3;
  description = event_type;
}

abbrev instances : List (SignalTimelineEvent ℕ)
instances = event 10 "created" ∷ event 20 "score_changed" ∷ []

abbrev events : List (SignalTimelineEvent ℕ)
events = event 20 "score_changed" ∷ event 30 "resolved" ∷ []

merge_run :
    merge_timeline instances events
    ≡ event 30 "resolved" ∷ event 20 "score_changed" ∷ event 10 "created" ∷ []
unfolding merge_timeline
merge_run = refl

abbrev texts : PayloadTexts ℕ String
texts = record {
  parse = λ text. some text;
  score = λ p. some 500;
  article_count = λ p. some 3;
  trend = λ p. none;
  count = λ p. none;
  fixed1 = λ x. "";
  fixed0 = λ x. "";
  spaced = λ s. s;
}

abbrev change : I64 → String → SignalEvent String
change occurred_at event_type = record {
  event_type = event_type;
  aggregate_id = "SIG-000001";
  payload = "";
  occurred_at = occurred_at;
}

-- The state counts the calls.
abbrev log : SignalEventLog String ℕ
log = record {
  append = λ e n s. (ok tt, s);
  load = λ id limit s. (ok (change 20 "score_changed" ∷ change 30 "resolved" ∷ []), s + 1);
}

abbrev query : SignalQuery ℕ ℕ
query = record {
  load_signal_detail = λ id s. (ok none, s);
  load_signal_events = λ id limit s. (ok [], s + 1);
  list_signal_threads = λ filter s. (ok [], s);
}

merge_signal_events-IsOutcome_example :
    IsOutcome texts instances
      (change 20 "score_changed" ∷ change 30 "resolved" ∷ [])
      []
      6
      7
      (merge_signal_events texts query (some log) 1 instances 5)
merge_signal_events-IsOutcome_example =
    merge_signal_events-IsOutcome texts query log 1 instances
      (ok (change 20 "score_changed" ∷ change 30 "resolved" ∷ [])) [] 5 6 7 refl refl
