-- ===== src/Tests/Policies.antt =====
-- The outbox, the governance gates and the rules on concrete data.
use sulix_intelligence.Prelude.{ℕ, ◌≡◌, refl, List, [], ◌∷◌, none, some, true, ok, milli, str_eq}
use sulix_intelligence.Store.ContentRows.{Source}
use sulix_intelligence.Store.Memory.{new}
use sulix_intelligence.Store.Memory.Outbox.{mark_outbox_failed}
use sulix_intelligence.Store.OutboxLaws.{
  OutboxCall, insert, failed, outbox_calls, mark_outbox_failed-idle,
}
use sulix_intelligence.Governance.Policy.{evaluate_policy, can_extract}
use sulix_intelligence.Governance.Storage.{article_content, can_store}
use sulix_intelligence.Governance.Laws.{can_extract-can_store}
use sulix_intelligence.Rules.{
  Rule, Field, keyword_includes, source_in, ArticleInput, TextOps, score,
}
use sulix_intelligence.Tests.Data.{empty_store}

abbrev event_calls : List OutboxCall
event_calls =
    insert (record { object_type = "event:memory"; object_key = "k"; payload = "{}" })
    ∷ failed 1
    ∷ failed 1
    ∷ failed 1
    ∷ failed 1
    ∷ []

mark_outbox_failed-idle_example :
    mark_outbox_failed 1 (outbox_calls event_calls empty_store)
    ≡ (ok tt, outbox_calls event_calls empty_store)
unfolding new
mark_outbox_failed-idle_example = mark_outbox_failed-idle event_calls 1 empty_store refl

abbrev licensed : Source ℕ
licensed = record {
  id = 1;
  source_type = "rss";
  feed_id = none;
  name = none;
  tier = "Tier1";
  policy = "FullTextAllowed";
  license = "CC-BY";
  license_detail = none;
  attribution = none;
  trust_score = none;
  retention_days = some 14;
  verified = true;
  notes = none;
  created_at = 1;
  updated_at = 1;
}

can_extract-can_store_example :
    can_extract licensed ≡ can_store article_content (some (evaluate_policy licensed))
can_extract-can_store_example = can_extract-can_store licensed

-- `contains` as equality, and the lower case of a text as the text.
abbrev plain : TextOps
plain = record { lower = λ s. s; contains = str_eq }

abbrev article : ArticleInput
article = record { title = "macro"; summary = "rates"; feed_url = "https://a" }

abbrev boosts : List (Rule ℕ)
boosts =
    record {
      name = "macro";
      audience_tag = "default";
      condition = keyword_includes Field.title "macro";
      score_delta = 500;
    }
    ∷ record {
      name = "feed";
      audience_tag = "other";
      condition = source_in ("https://a" ∷ []);
      score_delta = 100;
    }
    ∷ []

score-boosts : score plain article boosts "default" ≡ 500
unfolding score
score-boosts = refl
