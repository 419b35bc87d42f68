-- ===== src/Signals/Models.antt =====
-- crates/intelligence/signal-engine/src/{models,ports,source,error}.rs: what the engine reads and writes.
use Prim.Native.String.{String, ◌++◌}
use sulix_intelligence.Prelude.{ℕ, I64, List, Option}

pub data DiscoveryMethod : Type 0 where
  entity semantic hybrid : DiscoveryMethod

pub data SignalMutation : Type 0 where
  created updated : SignalMutation

pub record SignalUpsertResult : Type 0 where
  pub id : I64
  pub mutation : SignalMutation

pub record BriefArticle (F : Type 0) : Type 0 where
  pub id : I64
  pub title : String
  pub url : Option String
  pub feed_name : Option String
  pub score : F

pub record RelatedEntityRef (F : Type 0) : Type 0 where
  pub id : I64
  pub name : String
  pub entity_type : String
  pub relation_type : String
  pub relation : Option String
  pub confidence : Option F

pub record EntityCandidate (F : Type 0) : Type 0 where
  pub entity_id : I64
  pub entity_name : String
  pub entity_type : String
  pub score : F
  pub trend : String
  pub article_count : I64
  pub source_count : I64
  pub avg_score : F
  pub evidence : List (BriefArticle F)
  pub related_entity_ids : List I64

pub record EmbeddedArticle : Type 0 where
  pub article_id : I64
  pub vector_id : String

pub record SignalTimelineEvent (F : Type 0) : Type 0 where
  pub timestamp : I64
  pub event_type : String
  pub score : F
  pub article_count : I64
  pub description : String

pub record SignalEventRecord : Type 0 where
  pub event_type : String
  pub payload : Option String
  pub created_at : I64

pub record SignalThreadFilter (F : Type 0) : Type 0 where
  pub statuses : List String
  pub limit : ℕ
  pub min_score : F

pub record SignalInstanceMoment : Type 0 where
  pub generated_at : I64

pub record SignalThreadRow (F : Type 0) : Type 0 where
  pub thread_id : I64
  pub signal_key : String
  pub anchor_entity : Option String
  pub title : String
  pub status : String
  pub health_score : F
  pub trend : String
  pub current_score : F
  pub cumulative_article_count : I64
  pub instances : List SignalInstanceMoment

pub record SignalCandidate (F : Type 0) : Type 0 where
  pub signal_key : String
  pub anchor_entity_id : Option I64
  pub title : String
  pub status : String
  pub discovery_method : DiscoveryMethod
  pub discovery_score : Option F
  pub score : F
  pub trend : String
  pub article_count : I64
  pub source_count : I64
  pub avg_score : F
  pub evidence : List (BriefArticle F)
  pub related_entities : List (RelatedEntityRef F)

pub data SignalError : Type 0 where
  persistence discovery query event_log semantic_index : String → SignalError

-- The `Display` text.
abbrev pub error_text : SignalError → String
error_text (persistence e) = "signal persistence: " ++ e
error_text (discovery e) = "signal discovery: " ++ e
error_text (query e) = "signal query: " ++ e
error_text (event_log e) = "signal event log: " ++ e
error_text (semantic_index e) = "semantic index: " ++ e

pub record SimilarArticle (F : Type 0) : Type 0 where
  pub vector_id : String
  pub score : F
