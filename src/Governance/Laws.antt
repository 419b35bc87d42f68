-- ===== src/Governance/Laws.antt =====
-- The governance gates against each other.
use sulix_intelligence.Prelude.{◌≡◌, refl, some, eq_iff, str_eq, Bool-cases, inl, inr}
use sulix_intelligence.Store.ContentRows.{Source}
use sulix_intelligence.Governance.Policy.{evaluate_policy, can_extract}
use sulix_intelligence.Governance.Storage.{article_content, can_store}

module _ {F : Type 0} where
  -- Full text is extracted exactly from the sources whose article content the policy lets be stored.
  pub can_extract-can_store :
      (source : Source F)
      → can_extract source ≡ can_store article_content (some (evaluate_policy source))
  unfolding can_extract can_store evaluate_policy
  can_extract-can_store source = elim (Bool-cases (str_eq source.policy "MetadataOnly")) [
    | inl a ↦ rw ((eq_iff source.policy "MetadataOnly").0 a) refl
    | inr a ↦ elim (Bool-cases (str_eq source.policy "SummaryAllowed")) [
      | inl b ↦ rw ((eq_iff source.policy "SummaryAllowed").0 b) refl
      | inr b ↦ elim (Bool-cases (str_eq source.policy "FullTextAllowed")) [
        | inl c ↦ rw ((eq_iff source.policy "FullTextAllowed").0 c) refl
        | inr c ↦ elim (Bool-cases (str_eq source.policy "UserOwned")) [
          | inl d ↦ rw ((eq_iff source.policy "UserOwned").0 d) refl
          | inr d ↦ rw (a, b, c, d) refl
        ]
      ]
    ]
  ]
