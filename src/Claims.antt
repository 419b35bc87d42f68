-- ===== src/Claims.antt =====
-- crates/claim-engine/src/domain.rs, parser.rs and confidence.rs: the claims that a model extracts from articles.
pub mod Parser
pub mod Fences
pub mod Confidence
use Prim.Native.String.{String}
use sulix_intelligence.Prelude.{I64, List}

pub data ClaimType : Type 0 where
  fact trend prediction causal opinion : ClaimType

pub data Uncertainty : Type 0 where
  low medium high : Uncertainty

pub record EvidenceRef (F : Type 0) : Type 0 where
  pub article_id : I64
  pub relevance : F

pub record FrameworkRef (F : Type 0) : Type 0 where
  pub framework_id : String
  pub relevance : F
  pub reasoning : String

pub record ClaimCandidate (F : Type 0) : Type 0 where
  pub statement : String
  pub claim_type : ClaimType
  pub reasoning : String
  pub falsification : String
  pub evidence_refs : List (EvidenceRef F)
  pub counter_arguments : List String
  pub frameworks_applied : List (FrameworkRef F)
  pub uncertainty : Uncertainty

pub record LlmClaimItem (F : Type 0) : Type 0 where
  pub claim_type : String
  pub statement : String
  pub reasoning : String
  pub falsification : String
  pub evidence_article_ids : List I64
  pub counter_arguments : List String
  pub frameworks_applied : List (FrameworkRef F)
  pub uncertainty : String

pub record LlmClaimOutput (F : Type 0) : Type 0 where
  pub claims : List (LlmClaimItem F)
