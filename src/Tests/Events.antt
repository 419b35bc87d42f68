-- ===== src/Tests/Events.antt =====
-- The event store, its keys and the archive job, on concrete entries.
use Prim.Native.String.{String}
use sulix_intelligence.Prelude.{
  ℕ, I64, ◌≡◌, ◌+◌, ◌-◌, ◌^◌, ◌/◌, ◌%◌, refl, arith, List, [], ◌∷◌, All, none, some, ok, err, true,
  false, milli, length,
}
use sulix_intelligence.Store.PipelineRows.{OutboxEntry}
use sulix_intelligence.Store.Memory.{MemoryStore, new}
use sulix_intelligence.ObjectStore.Memory.{blob_store, write_object}
use sulix_intelligence.EventStore.Types.{EventEnvelope}
use sulix_intelligence.EventStore.Keys.{decompose_ts, event}
use sulix_intelligence.EventStore.Keys.Date.{IsDate, decompose_ts-IsDate, decompose_ts-before_1970}
use sulix_intelligence.EventStore.Backend.{EnvelopeJson, append_event, load_events}
use sulix_intelligence.EventStore.Archive.{archive_outbox}
use sulix_intelligence.EventStore.Archive.Progress.{pending, archive_runs, archive_runs-done}
use sulix_intelligence.EventStore.Archive.Blocked.{archive_runs-blocked}
use sulix_intelligence.EventStore.RoundTrip.{load_events-append_event}
use sulix_intelligence.Tests.Data.{empty_store}

event_key :
    event "signal_thread" 1721865600 "evt_1721865600_42_1"
    ≡ "memory/events/signal_thread/2024/07/25/evt_1721865600_42_1.json"
unfolding event sulix_intelligence.Prelude.Decimal.padded
event_key = refl

decompose_ts-IsDate_example :
    (year : ℕ) × (month : ℕ) × (day : ℕ) × (decompose_ts 1721865600 ≡ (year, month, day))
    × IsDate (1721865600 / 86400) year month day
decompose_ts-IsDate_example = decompose_ts-IsDate 1721865600 (omega arith)

-- 1969-12-31 becomes the day 0 of January 1970.
decompose_ts-before_1970_example :
    decompose_ts (2 ^ 64 - 1) ≡ (1970, 1, (2 ^ 32 + 1 - (1 + 86399) / 86400) % 2 ^ 32)
decompose_ts-before_1970_example = decompose_ts-before_1970 1 (omega arith) (omega arith)

abbrev entry : I64 → String → OutboxEntry
entry id object_type = record {
  id = id;
  object_type = object_type;
  object_key = "k";
  payload = "{}";
  status = "pending";
  created_at = 0;
  retry_count = 0;
}

abbrev envelope : EventEnvelope String
envelope = record {
  schema_version = 1;
  event_id = "evt_1_1";
  event_version = 1;
  aggregate = record { aggregate_type = "decision"; aggregate_id = "DEC-000001" };
  event_type = "DecisionCreated";
  payload = "{}";
  metadata = record { actor = "user"; source = "api" };
  correlation_id = "";
  causation_id = "";
  occurred_at = 1721865600;
  created_at = 1721865600;
}

-- A serializer that reads every text as this envelope, and one that reads none.
abbrev reads_all : EnvelopeJson String
reads_all = record { to_string = λ e. ok "{}"; from_text = λ s. some envelope }

abbrev reads_none : EnvelopeJson String
reads_none = record { to_string = λ e. ok "{}"; from_text = λ s. none }

abbrev queue : List OutboxEntry
queue = entry 1 "event:decision" ∷ entry 2 "archive:memory" ∷ []

abbrev queued_store : MemoryStore ℕ
queued_store = record empty_store { outbox = queue }

archive_runs-done_example :
    pending (archive_runs reads_all (blob_store 5) 1 (queued_store, [])).0.outbox ≡ []
unfolding new blob_store write_object
archive_runs-done_example =
    archive_runs-done reads_all (blob_store 5) 1 queued_store [] (λ key object b. (_, _, refl))
      ((λ h. (envelope, refl)), ((λ h. (envelope, refl)), tt)) (refl, (refl, tt)) (omega arith)

archive_runs-blocked_example :
    archive_runs reads_none
      (blob_store 5)
      3
      (record empty_store { outbox = entry 1 "event:reflection" ∷ [] }, [])
    ≡ (record empty_store { outbox = entry 1 "event:reflection" ∷ [] }, [])
unfolding new
archive_runs-blocked_example =
    archive_runs-blocked reads_none (blob_store 5) 3
      (record empty_store { outbox = entry 1 "event:reflection" ∷ [] }) [] ((refl, refl), tt)
      (refl, tt)

load_events-append_event_example :
    (load_events reads_all (blob_store 5) "decision" "DEC-000001" 50 (
      archive_outbox reads_all
        (blob_store 5)
        (append_event reads_all envelope (empty_store, [])).1)).0
    ≡ ok (envelope ∷ [])
unfolding new
load_events-append_event_example =
    load_events-append_event reads_all 5 envelope "{}" 49 empty_store [] refl refl refl refl refl
