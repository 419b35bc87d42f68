-- ===== src/ObjectStore.antt =====
-- crates/object-store/src/lib.rs: the object archive, its port and its keys. An object is the UTF-8 text whose bytes
-- the source passes.
pub mod Memory
use Prim.Native.String.{String, ◌++◌}
use sulix_intelligence.Prelude.{ℕ, I64, Option, Mut, str_eq, if◌then◌else◌}
use sulix_intelligence.Prelude.Decimal.{padded}

pub record ObjectRef : Type 0 where
  pub key : String
  pub size : ℕ
  pub created_at : I64

pub data ObjectStoreError : Type 0 where
  r2 not_found empty_body : String → ObjectStoreError

-- The `Display` text.
abbrev pub error_text : ObjectStoreError → String
error_text (r2 e) = "r2 error: " ++ e
error_text (not_found e) = "object not found: " ++ e
error_text (empty_body e) = "empty body for key: " ++ e

pub record ObjectStore (St : Type 0) : Type 0 where
  pub write_object : String → String → Mut St ObjectStoreError ObjectRef
  pub read_object : String → Mut St ObjectStoreError (Option String)
  pub delete_object : String → Mut St ObjectStoreError (Unit {0})

-- `{}` of an i64.
abbrev show : I64 → String
show = padded 1

abbrev pub decision : I64 → String → String
decision decision_id filename = "memory/decisions/" ++ show decision_id ++ "/" ++ filename

abbrev pub decision_outcome : I64 → I64 → String
decision_outcome decision_id outcome_id =
    "memory/decisions/" ++ show decision_id ++ "/outcomes/" ++ show outcome_id ++ ".json"

abbrev pub signal : I64 → String → String
signal signal_id filename = "memory/signals/" ++ show signal_id ++ "/" ++ filename

abbrev pub signal_event : I64 → I64 → String
signal_event thread_id timestamp =
    "memory/signals/" ++ show thread_id ++ "/events/" ++ show timestamp ++ ".json"

abbrev pub signal_event_prefix : I64 → String
signal_event_prefix thread_id = "memory/signals/" ++ show thread_id ++ "/events/"

abbrev pub briefing : String → String
briefing date = "memory/briefings/" ++ date ++ ".json"

abbrev pub suffix : String → String
suffix content_type =
    if str_eq content_type "application/json"
    then "json"
    else if str_eq content_type "text/markdown"
    then "md"
    else if str_eq content_type "text/plain"
    then "txt"
    else if str_eq content_type "application/octet-stream"
    then "bin"
    else "dat"

abbrev pub artifact : String → String → I64 → String → String
artifact artifact_type owner_id timestamp content_type =
    "artifacts/"
    ++ artifact_type
    ++ "/"
    ++ owner_id
    ++ "/"
    ++ show timestamp
    ++ "."
    ++ suffix content_type

abbrev pub decision_memo : String → I64 → String
decision_memo decision_id timestamp =
    "artifacts/decision_memo/" ++ decision_id ++ "/" ++ show timestamp ++ ".md"

abbrev pub reflection_result : String → I64 → String
reflection_result reflection_id timestamp =
    "artifacts/reflection_result/" ++ reflection_id ++ "/" ++ show timestamp ++ ".json"

abbrev pub claim_analysis : I64 → I64 → String
claim_analysis claim_id timestamp =
    "artifacts/claim_analysis/CLM-" ++ padded 6 claim_id ++ "/" ++ show timestamp ++ ".json"

abbrev pub reasoning_run : String → String
reasoning_run run_id = "artifacts/reasoning_trace/" ++ run_id ++ ".json"
