-- ===== src/Signals/Query.antt =====
-- crates/intelligence/signal-engine/src/query: the views of signals. `J` stands for a `serde_json::Value`.
pub mod Detail
pub mod Order
pub mod Timeline
pub mod Threads
use Prim.Native.String.{String}
use sulix_intelligence.Prelude.{ℕ, I64, List, Option, Mut}
use sulix_intelligence.Signals.Models.{
  BriefArticle, RelatedEntityRef, SignalTimelineEvent, SignalEventRecord, SignalThreadFilter,
  SignalThreadRow, SignalError,
}

pub record HealthComponents (F : Type 0) : Type 0 where
  pub volume : F
  pub diversity : F
  pub quality : F
  pub velocity : F
  pub persistence : F

pub record SignalHealthDetail2 (F : Type 0) : Type 0 where
  pub score : F
  pub components : HealthComponents F

pub record EntitySignalRef : Type 0 where
  pub id : I64
  pub name : String
  pub entity_type : String

pub record RelatedSignalRef (F : Type 0) : Type 0 where
  pub id : I64
  pub title : String
  pub status : String
  pub health_score : F

pub record SignalAnalysis : Type 0 where
  pub why_it_matters : String
  pub impact : String
  pub confidence_reason : String

pub record SignalDetail (F : Type 0) : Type 0 where
  pub id : I64
  pub title : String
  pub description : String
  pub status : String
  pub trend : String
  pub health : SignalHealthDetail2 F
  pub anchor_entity : Option EntitySignalRef
  pub first_seen_at : I64
  pub last_seen_at : I64
  pub timeline : List (SignalTimelineEvent F)
  pub evidence_top : List (BriefArticle F)
  pub related_entities : List (RelatedEntityRef F)
  pub related_signals : List (RelatedSignalRef F)
  pub analysis : Option SignalAnalysis

pub record SignalThreadSummary (F : Type 0) : Type 0 where
  pub thread_id : I64
  pub title : String
  pub status : String
  pub health_score : F
  pub trend : String
  pub current_score : F
  pub latest_impact : String
  pub instance_count : ℕ
  pub total_articles : I64
  pub first_seen_at : I64
  pub last_seen_at : I64

pub record SignalQuery (F St : Type 0) : Type 0 where
  pub load_signal_detail : I64 → Mut St SignalError (Option (SignalDetail F))
  pub load_signal_events : I64 → ℕ → Mut St SignalError (List SignalEventRecord)
  pub list_signal_threads : SignalThreadFilter F → Mut St SignalError (List (SignalThreadRow F))
