-- ===== src/Governance/Policy.antt =====
-- crates/content-governance/src/lib.rs: the policy decision on a source.
use Prim.Native.String.{String, ◌++◌}
use sulix_intelligence.Prelude.{
  ℕ, I64, ◌%◌, ◌^◌, Option, none, some, Bool, true, not, ◌||◌, str_eq, if◌then◌else◌,
}
use sulix_intelligence.Store.ContentRows.{Source}

pub data StoragePermission : Type 0 where
  denied allowed : StoragePermission

pub data ServingPermission : Type 0 where
  denied allowed : ServingPermission

pub data EmbeddingPermission : Type 0 where
  denied limited allowed : EmbeddingPermission

pub data AiSummaryPermission : Type 0 where
  title_only allowed : AiSummaryPermission

pub record PolicyDecision : Type 0 where
  pub storage : StoragePermission
  pub serving : ServingPermission
  pub embedding : EmbeddingPermission
  pub ai_summary : AiSummaryPermission
  pub retention_days : ℕ
  pub attribution_required : Bool
  pub reason : String

-- `source.retention_days.map(|d| d as u32).unwrap_or(days)`: the cast keeps the low 32 bits.
abbrev pub retention : Option I64 → ℕ → ℕ
retention none days = days
retention (some d) days = d % 2 ^ 32

-- The four arms that name a policy differ in these fields alone.
abbrev locked : ℕ → String → PolicyDecision
locked days reason = record {
  storage = StoragePermission.denied;
  serving = ServingPermission.denied;
  embedding = EmbeddingPermission.denied;
  ai_summary = title_only;
  retention_days = days;
  attribution_required = true;
  reason = reason;
}

abbrev open_text : ℕ → Bool → String → PolicyDecision
open_text days attribution reason = record {
  storage = StoragePermission.allowed;
  serving = ServingPermission.allowed;
  embedding = EmbeddingPermission.allowed;
  ai_summary = AiSummaryPermission.allowed;
  retention_days = days;
  attribution_required = attribution;
  reason = reason;
}

unfoldable pub default_decision : PolicyDecision
default_decision = locked 7 "default: no policy set"

module _ {F : Type 0} where
  unfoldable pub evaluate_policy : Source F → PolicyDecision
  evaluate_policy source =
      if str_eq source.policy "MetadataOnly"
      then locked (retention source.retention_days 7) "Source policy: metadata only"
      else if str_eq source.policy "SummaryAllowed"
      then record {
        storage = StoragePermission.denied;
        serving = ServingPermission.denied;
        embedding = limited;
        ai_summary = AiSummaryPermission.allowed;
        retention_days = retention source.retention_days 30;
        attribution_required = true;
        reason = "Source policy: summary allowed, no full-text";
      }
      else if str_eq source.policy "FullTextAllowed"
      then open_text (retention source.retention_days 30) (not (str_eq source.tier "Tier0"))
          "Source policy: full text allowed"
      else if str_eq source.policy "UserOwned"
      then open_text (retention source.retention_days 90) true "User-owned content"
      else locked 7 ("Unknown policy: " ++ source.policy)

  unfoldable pub can_extract : Source F → Bool
  can_extract source = str_eq source.policy "FullTextAllowed" || str_eq source.policy "UserOwned"
