-- ===== src/Governance/Storage.antt =====
-- crates/infrastructure/src/storage_policy.rs: retention and storage by the category of an artifact.
use Prim.Native.String.{String}
use sulix_intelligence.Prelude.{
  ℕ, Option, none, some, Bool, true, false, ltb, str_eq, if◌then◌else◌,
}
use sulix_intelligence.Governance.Policy.{StoragePermission, PolicyDecision}

pub data ArtifactCategory : Type 0 where
  article_content ai_summary claim_analysis decision_memo reflection_result reasoning_trace :
      ArtifactCategory

unfoldable pub from_type : String → ArtifactCategory
from_type s =
    if str_eq s "article_content"
    then article_content
    else if str_eq s "ai_summary"
    then ArtifactCategory.ai_summary
    else if str_eq s "claim_analysis"
    then claim_analysis
    else if str_eq s "decision_memo"
    then decision_memo
    else if str_eq s "reflection_result"
    then reflection_result
    else if str_eq s "reasoning_trace"
    then reasoning_trace
    else reasoning_trace

abbrev pub max : ℕ → ℕ → ℕ
max a b = if ltb a b then b else a

abbrev policy_days : Option PolicyDecision → ℕ → ℕ
policy_days none days = days
policy_days (some p) days = p.retention_days

abbrev memo_days : Option PolicyDecision → ℕ
memo_days none = 365
memo_days (some p) = max p.retention_days 90

unfoldable pub retention_days : ArtifactCategory → Option PolicyDecision → ℕ
retention_days article_content policy = policy_days policy 7
retention_days ArtifactCategory.ai_summary policy = policy_days policy 7
retention_days claim_analysis policy = policy_days policy 7
retention_days decision_memo policy = memo_days policy
retention_days reflection_result policy = 90
retention_days reasoning_trace policy = 30

abbrev is_allowed : StoragePermission → Bool
is_allowed StoragePermission.allowed = true
is_allowed StoragePermission.denied = false

abbrev policy_stores : Option PolicyDecision → Bool
policy_stores none = false
policy_stores (some p) = is_allowed p.storage

unfoldable pub can_store : ArtifactCategory → Option PolicyDecision → Bool
can_store article_content policy = policy_stores policy
can_store ArtifactCategory.ai_summary policy = policy_stores policy
can_store decision_memo policy = true
can_store reflection_result policy = true
can_store claim_analysis policy = policy_stores policy
can_store reasoning_trace policy = true
