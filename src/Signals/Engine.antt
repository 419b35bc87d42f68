-- ===== src/Signals/Engine.antt =====
-- crates/intelligence/signal-engine/src/lib.rs, `SignalEngine::run`. The counters are u64 in the source; a run adds at
-- most two to each per candidate, so they do not wrap.
pub mod Counters
pub mod Report
use Prim.Native.String.{String}
use sulix_intelligence.Prelude.{
  ℕ, I64, ◌+◌, List, [], ◌∷◌, ◌++◌, Option, none, some, get_or, Result, ok, err, Bool, true, ◌||◌,
  not, if◌then◌else◌, Float, str_eq, Mut, ◌>>=◌, ◌>>◌, return, ignoring,
}
use sulix_intelligence.Ids.{signal_id}
use sulix_intelligence.Signals.Models.{
  SignalCandidate, SignalError, SignalMutation, created, updated, SignalUpsertResult,
}
use sulix_intelligence.Signals.Ports.{
  SignalPersistence, SignalEventLog, SignalEvent, SignalDiscovery, SemanticQuery, DiscoveryContext,
  SignalSource,
}
use sulix_intelligence.Signals.Scoring.{score_to_impact}

pub record SignalEngineReport : Type 0 where
  pub threads_created : ℕ
  pub instances_appended : ℕ
  pub events_written : ℕ
  pub lifecycle_transitions : ℕ

abbrev pub empty_report : SignalEngineReport
empty_report = record {
  threads_created = 0;
  instances_appended = 0;
  events_written = 0;
  lifecycle_transitions = 0;
}

abbrev pub is_created : SignalMutation → Bool
is_created created = true
is_created updated = not true

abbrev pub count_created : SignalMutation → SignalEngineReport → SignalEngineReport
count_created created report = record report { threads_created = report.threads_created + 1 }
count_created updated report = report

-- The payloads that `serde_json::json!` builds.
pub record SignalJson (F J : Type 0) : Type 0 where
  pub score_changed : SignalCandidate F → String → J
  pub created_payload : String → J

module _ {F St : Type 0} where
  -- A source that fails adds no candidates; what it wrote stays written.
  unfoldable pub collect :
      DiscoveryContext F St → List (SignalSource F St) → St → List (SignalCandidate F) × St
  collect ctx [] s = ([], s)
  collect ctx (source ∷ sources) s =
      let (r, s') = source ctx s in
      let (rest, t) = collect ctx sources s' in
      (elim r [ ok found ↦ found ++ rest | err e ↦ rest ], t)

module _ {F : Type 0} ⦃fl : Float F⦄ where
  abbrev pub is_changed : SignalCandidate F → Result SignalError (Option (F × String)) → Bool
  is_changed c (ok (some (score, trend))) =
      fl.lt (fl.ratio 1 100) (fl.abs (fl.sub score c.score)) || not (str_eq trend c.trend)
  is_changed c (ok none) = true
  is_changed c (err e) = true

module _ {F St : Type 0} ⦃fl : Float F⦄ (persistence : SignalPersistence F St) where
  -- `should_append` with its effect on the state; an error counts as a change.
  abbrev pub should_append : SignalCandidate F → I64 → Mut St SignalError Bool
  should_append c thread_id s =
      let (r, s') = persistence.latest_instance_fingerprint thread_id s in (ok (is_changed c r), s')

  abbrev pub append_instance :
      SignalCandidate F → I64 → SignalEngineReport → Mut St SignalError SignalEngineReport
  append_instance c thread_id report = do
    _ ←
        persistence.append_signal_instance thread_id c.score (score_to_impact c.score) c.trend
          c.article_count c.source_count c.avg_score (get_or c.anchor_entity_id 0)
    return (record report { instances_appended = report.instances_appended + 1 })

module _ {J St : Type 0} where
  -- An event, if there is a log, with its number in the run; a failure is ignored.
  abbrev pub write_event :
      Option (SignalEventLog J St)
      → SignalEvent J
      → SignalEngineReport
      → Mut St SignalError SignalEngineReport
  write_event none event report = return report
  write_event (some log) event report =
      ignoring (log.append event (report.events_written + 1))
      >> return (record report { events_written = report.events_written + 1 })

module _ {F J St : Type 0} ⦃fl : Float F⦄ (json : SignalJson F J)
    (persistence : SignalPersistence F St) (log : Option (SignalEventLog J St)) (now : I64) where
  abbrev pub score_changed_event : SignalCandidate F → I64 → SignalEvent J
  score_changed_event c thread_id = record {
    event_type = "SignalScoreChanged";
    aggregate_id = signal_id thread_id;
    payload = json.score_changed c (score_to_impact c.score);
    occurred_at = now;
  }

  abbrev pub created_event : SignalCandidate F → I64 → SignalEvent J
  created_event c thread_id = record {
    event_type = "SignalCreated";
    aggregate_id = signal_id thread_id;
    payload = json.created_payload c.signal_key;
    occurred_at = now;
  }

  -- The body of the loop after the upsert.
  abbrev pub record_candidate :
      SignalCandidate F
      → SignalUpsertResult
      → SignalEngineReport
      → Mut St SignalError SignalEngineReport
  record_candidate c upsert report = do
    let counted = count_created upsert.mutation report
    changed ← should_append persistence c upsert.id
    appended ← if changed then append_instance persistence c upsert.id counted else return counted
    logged ← write_event log (score_changed_event c upsert.id) appended
    if is_created upsert.mutation
        then write_event log (created_event c upsert.id) logged
        else return logged

  abbrev pub process_candidate :
      SignalCandidate F → SignalEngineReport → Mut St SignalError SignalEngineReport
  process_candidate c report = do
    upsert ←
        persistence.upsert_signal_thread c.signal_key c.anchor_entity_id c.title c.status
          c.discovery_method c.discovery_score
    record_candidate c upsert report

  unfoldable pub process_all :
      List (SignalCandidate F) → SignalEngineReport → Mut St SignalError SignalEngineReport
  process_all [] report = return report
  process_all (c ∷ cs) report = process_candidate c report >>= process_all cs

  unfoldable pub run :
      SignalDiscovery F St
      → Option (SemanticQuery F St)
      → List (SignalSource F St)
      → Mut St SignalError SignalEngineReport
  unfolding collect process_all
  run discovery semantic sources s =
      let (candidates, s') =
        collect (record { discovery = discovery; semantic = semantic; now = now }) sources s in
      (do
        report ← process_all candidates empty_report
        persistence.update_signal_lifecycle now
        return (record report { lifecycle_transitions = 1 }))
        s'
