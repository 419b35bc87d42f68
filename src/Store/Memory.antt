-- ===== src/Store/Memory.antt =====
-- crates/store/src/memory/mod.rs: the in-memory store. A method on `&self` writes through `RefCell`s, so here it
-- goes from the store to its result and the new store. `F` stands for f64.
pub mod Decisions
pub mod Reflections
pub mod Outbox
pub mod Content
pub mod Knowledge
use Prim.Native.String.{String}
use sulix_intelligence.Prelude.{ℕ, I64, List, [], ◌∷◌, Option, Bool, false, HashMap, insert, ◌==◌}
use sulix_intelligence.Store.DecisionRows.{Decision, OutcomeEvent, DecisionEvaluation}
use sulix_intelligence.Store.PipelineRows.{
  Reflection, OutboxEntry, EventIndexEntry, Memory, ContextSnapshot, ArtifactRecord, ArtifactData,
}
use sulix_intelligence.Store.ContentRows.{
  Feed, NewArticle, Source, Claim, ConfidenceEvent, EntityInternal, RelationEdge,
}
use sulix_intelligence.Store.SignalRows.{SignalEvent}

pub record FetchResultEntry : Type 0 where
  pub feed_id : I64
  pub fetched_at : I64
  pub etag : Option String
  pub last_modified : Option String

pub record MemoryStore (F : Type 0) : Type 0 where
  pub feeds : HashMap I64 Feed
  pub rules : List String
  pub articles : List NewArticle
  pub next_article_id : I64
  pub summaries : HashMap I64 String
  pub r2_keys : HashMap I64 (Option String)
  pub fetch_results : List FetchResultEntry
  pub entities : HashMap I64 EntityInternal
  pub next_entity_id : I64
  pub article_entity_links : List (I64 × I64)
  pub entity_relation_edges : List (RelationEdge F)
  pub artifacts : List ArtifactData
  pub next_artifact_id : I64
  pub fail_insert : Bool
  pub fail_rules : Bool
  pub fail_summary : Bool
  pub fail_fetch_result : Bool
  pub fail_r2_key : Bool
  pub signal_events : List SignalEvent
  pub next_signal_event_id : I64
  pub decisions : List (Decision F)
  pub next_decision_id : I64
  pub outcomes : List OutcomeEvent
  pub next_outcome_id : I64
  pub evaluations : List (DecisionEvaluation F)
  pub outbox : List OutboxEntry
  pub next_outbox_id : I64
  pub memory_artifacts : List ArtifactRecord
  pub event_archive : List EventIndexEntry
  pub next_event_archive_id : I64
  pub reflections : HashMap I64 (Reflection F)
  pub next_reflection_id : I64
  pub memories : HashMap I64 (Memory F)
  pub next_memory_id : I64
  pub snapshots : HashMap String (ContextSnapshot F)
  pub claims : List Claim
  pub next_claim_id : I64
  pub confidence_events : List (ConfidenceEvent F)
  pub next_confidence_event_id : I64
  pub sources : HashMap I64 (Source F)
  pub next_source_id : I64

unfoldable pub new : {F : Type 0} → MemoryStore F
new = record {
  feeds = [];
  rules = [];
  articles = [];
  next_article_id = 1;
  summaries = [];
  r2_keys = [];
  fetch_results = [];
  entities = [];
  next_entity_id = 1;
  article_entity_links = [];
  entity_relation_edges = [];
  artifacts = [];
  next_artifact_id = 1;
  fail_insert = false;
  fail_rules = false;
  fail_summary = false;
  fail_fetch_result = false;
  fail_r2_key = false;
  signal_events = [];
  next_signal_event_id = 1;
  decisions = [];
  next_decision_id = 1;
  outcomes = [];
  next_outcome_id = 1;
  evaluations = [];
  outbox = [];
  next_outbox_id = 1;
  memory_artifacts = [];
  event_archive = [];
  next_event_archive_id = 1;
  reflections = [];
  next_reflection_id = 1;
  memories = [];
  next_memory_id = 1;
  snapshots = [];
  claims = [];
  next_claim_id = 1;
  confidence_events = [];
  next_confidence_event_id = 1;
  sources = [];
  next_source_id = 1;
}

unfoldable pub with_rules : {F : Type 0} → MemoryStore F → List String → MemoryStore F
with_rules s rules = record s { rules = rules }

unfoldable pub with_feed : {F : Type 0} → MemoryStore F → Feed → MemoryStore F
with_feed s feed = record s { feeds = insert ◌==◌ feed.id feed s.feeds }
