-- ===== src/Rules.antt =====
-- crates/rules/src/lib.rs: the filter and scoring rules. `lower` and `contains` stand for `str::to_lowercase` and
-- `str::contains`.
pub mod Laws
use Prim.Native.String.{String}
use sulix_intelligence.Prelude.{
  List, [], ◌∷◌, Bool, true, false, not, ◌&&◌, ◌||◌, any, str_eq, Float, if◌then◌else◌,
}

pub data Field : Type 0 where
  title summary : Field

mutual
  pub data Condition : Type 0 where
    keyword_includes keyword_excludes : Field → String → Condition
    source_in : List String → Condition
    all_of any_of : Conditions → Condition

  pub data Conditions : Type 0 where
    nothing : Conditions
    also : Condition → Conditions → Conditions

pub record Rule (F : Type 0) : Type 0 where
  pub name : String
  pub audience_tag : String
  pub condition : Condition
  pub score_delta : F

pub record ArticleInput : Type 0 where
  pub title : String
  pub summary : String
  pub feed_url : String

-- The library functions on texts.
pub record TextOps : Type 0 where
  pub lower : String → String
  pub contains : String → String → Bool

unfoldable pub field_text : Field → ArticleInput → String
field_text Field.title article = article.title
field_text Field.summary article = article.summary

module _ (ops : TextOps) where
  unfoldable mutual
    unfolding field_text

    pub eval : Condition → ArticleInput → Bool
    eval (keyword_includes field keyword) article =
        ops.contains (ops.lower (field_text field article)) (ops.lower keyword)
    eval (keyword_excludes field keyword) article =
        not (ops.contains (ops.lower (field_text field article)) (ops.lower keyword))
    eval (source_in feed_urls) article = any (λ u. str_eq u article.feed_url) feed_urls
    eval (all_of conditions) article = eval_all conditions article
    eval (any_of conditions) article = eval_any conditions article

    -- `conditions.iter().all(|c| eval(c, article))`
    pub eval_all : Conditions → ArticleInput → Bool
    eval_all nothing article = true
    eval_all (also c cs) article = eval c article && eval_all cs article

    -- `conditions.iter().any(|c| eval(c, article))`
    pub eval_any : Conditions → ArticleInput → Bool
    eval_any nothing article = false
    eval_any (also c cs) article = eval c article || eval_any cs article

module _ {F : Type 0} ⦃fl : Float F⦄ (ops : TextOps) where
  unfoldable pub applies : ArticleInput → String → Rule F → Bool
  unfolding eval
  applies article tag r = str_eq r.audience_tag tag && eval ops r.condition article

  -- `sum()` folds from the left; the sum over no rule is -0.0, here 0.
  unfoldable pub score_from : F → ArticleInput → List (Rule F) → String → F
  unfolding applies
  score_from acc article [] tag = acc
  score_from acc article (r ∷ rs) tag =
      score_from (if applies article tag r then fl.add acc r.score_delta else acc) article rs tag

  unfoldable pub score : ArticleInput → List (Rule F) → String → F
  unfolding score_from
  score article rules tag = score_from (fl.ratio 0 1) article rules tag
