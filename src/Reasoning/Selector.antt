-- ===== src/Reasoning/Selector.antt =====
-- crates/reasoning-framework/src/selector.rs: the choice of frameworks.
use Prim.Native.String.{String}
use sulix_intelligence.Prelude.{
  List, [], Option, none, some, Mut, ◌>>=◌, return, any, filterb, str_eq, ◌||◌, if◌then◌else◌,
}
use sulix_intelligence.Reasoning.{
  FrameworkCategory, mathematical_models, financial_intelligence, human_behavior, strategic_models,
  systems_thinking, scientific_thinking, matches, ReasoningFramework, FrameworkError,
  FrameworkRepository,
}

-- The category of a lowercase text.
abbrev pub category_of : String → Option FrameworkCategory
category_of text =
    if str_eq text "mathematics" || str_eq text "mathematical"
    then some mathematical_models
    else if str_eq text "finance" || str_eq text "financial"
    then some financial_intelligence
    else if str_eq text "behavior" || (str_eq text "human_behavior" || str_eq text "psychology")
    then some human_behavior
    else if str_eq text "strategy" || str_eq text "strategic"
    then some strategic_models
    else if str_eq text "systems" || str_eq text "systems_thinking"
    then some systems_thinking
    else if str_eq text "science" || str_eq text "scientific"
    then some scientific_thinking
    else none

module _ {F St : Type 0} (repo : FrameworkRepository F St) where
  unfoldable pub select :
      (signal_type entity_type question_type : Option String)
      → List String
      → Mut St FrameworkError (List (ReasoningFramework F))
  unfolding matches
  select signal_type entity_type question_type keywords = do
    frameworks ← repo.list_all
    return (
        filterb
          (λ fw.
            any (λ rule. matches rule signal_type entity_type question_type keywords)
              fw.trigger_rules)
          frameworks)

  abbrev pub listed : Option FrameworkCategory → Mut St FrameworkError (List (ReasoningFramework F))
  listed none = return []
  listed (some category) = repo.list_by_category category

  -- `lowercase` is `to_lowercase`.
  unfoldable pub by_category :
      (String → String) → String → Mut St FrameworkError (List (ReasoningFramework F))
  by_category lowercase category = listed (category_of (lowercase category))
