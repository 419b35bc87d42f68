-- ===== src/Rules/Laws.antt =====
-- The score of an article over a set of rules.
use Prim.Native.String.{String}
use sulix_intelligence.Prelude.{
  List, [], ◌∷◌, ◌≡◌, refl, filterb, Float, str_eq, arith, if◌then◌else◌,
}
use sulix_intelligence.Rules.{Rule, ArticleInput, TextOps, applies, score_from, score}

module _ {F : Type 0} ⦃fl : Float F⦄ (ops : TextOps) where
  score_from-filterb :
      (acc : F) (article : ArticleInput) (rules : List (Rule F)) (tag : String)
      → score_from ops acc article (filterb (λ r. str_eq r.audience_tag tag) rules) tag
        ≡ score_from ops acc article rules tag
  unfolding score_from applies
  score_from-filterb acc article [] tag = refl
  score_from-filterb acc article (r ∷ rs) tag = ground (
    arith,
    score_from-filterb acc article rs tag,
    score_from-filterb (if applies ops article tag r then fl.add acc r.score_delta else acc) article
        rs tag,
  )

  -- The rules of other audiences count for nothing.
  pub score-filterb :
      (article : ArticleInput) (rules : List (Rule F)) (tag : String)
      → score ops article (filterb (λ r. str_eq r.audience_tag tag) rules) tag
        ≡ score ops article rules tag
  unfolding score
  score-filterb article rules tag = score_from-filterb (fl.ratio 0 1) article rules tag
