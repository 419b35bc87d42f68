-- ===== src/Store/ContentRows.antt =====
-- crates/domain/src/models/{feed,source,claim,confidence,entity}.rs and the private rows of
-- crates/store/src/memory/mod.rs: the rows of the content tables.
use Prim.Native.String.{String}
use sulix_intelligence.Prelude.{I64, Bool, Option}

pub record Feed : Type 0 where
  pub id : I64
  pub url : String
  pub title : Option String
  pub category : Option String
  pub fetch_interval_sec : I64
  pub last_fetched_at : Option I64
  pub etag : Option String
  pub last_modified : Option String
  pub status : String
  pub extraction_level : String

pub record NewArticle : Type 0 where
  pub feed_id : I64
  pub guid : String
  pub title : String
  pub url : Option String
  pub published_at : Option I64
  pub raw_content_r2_key : Option String

pub record Source (F : Type 0) : Type 0 where
  pub id : I64
  pub source_type : String
  pub feed_id : Option I64
  pub name : Option String
  pub tier : String
  pub policy : String
  pub license : String
  pub license_detail : Option String
  pub attribution : Option String
  pub trust_score : Option F
  pub retention_days : Option I64
  pub verified : Bool
  pub notes : Option String
  pub created_at : I64
  pub updated_at : I64

pub record NewSource (F : Type 0) : Type 0 where
  pub source_type : String
  pub feed_id : Option I64
  pub name : Option String
  pub tier : String
  pub policy : String
  pub license : String
  pub license_detail : Option String
  pub attribution : Option String
  pub trust_score : Option F
  pub retention_days : Option I64
  pub verified : Bool
  pub notes : Option String

pub record Claim : Type 0 where
  pub id : I64
  pub statement : String
  pub claim_type : String
  pub reasoning : Option String
  pub falsification : Option String
  pub status : String
  pub article_id : Option I64
  pub observation_id : Option I64
  pub created_at : I64
  pub updated_at : I64

pub record NewClaim : Type 0 where
  pub statement : String
  pub claim_type : String
  pub reasoning : Option String
  pub falsification : Option String
  pub status : Option String
  pub article_id : Option I64
  pub observation_id : Option I64

pub record ConfidenceEvent (F : Type 0) : Type 0 where
  pub id : I64
  pub entity_type : String
  pub entity_id : String
  pub previous_confidence : Option F
  pub confidence : F
  pub reason : Option String
  pub trigger_event : Option String
  pub factors_json : Option String
  pub created_at : I64

pub record NewConfidenceEvent (F : Type 0) : Type 0 where
  pub entity_type : String
  pub entity_id : String
  pub confidence : F
  pub reason : Option String
  pub trigger_event : Option String
  pub factors_json : Option String

pub record EntityInternal : Type 0 where
  pub id : I64
  pub name : String
  pub normalized_name : String
  pub entity_type : String
  pub canonical_id : Option I64
  pub description : Option String
  pub metadata : Option String
  pub created_at : I64
  pub updated_at : I64

pub record RelationEdge (F : Type 0) : Type 0 where
  pub source : I64
  pub target : I64
  pub rtype : String
  pub confidence : F
  pub first_seen : I64
  pub last_seen : I64

pub record EntityDetail : Type 0 where
  pub id : I64
  pub name : String
  pub normalized_name : String
  pub entity_type : String
  pub canonical_id : Option I64
  pub description : Option String
  pub metadata : Option String
  pub article_count : I64
  pub created_at : I64
  pub updated_at : I64

pub record EntitySummary : Type 0 where
  pub id : I64
  pub name : String
  pub normalized_name : String
  pub entity_type : String
  pub canonical_id : Option I64
  pub article_count : I64
  pub last_seen : I64
