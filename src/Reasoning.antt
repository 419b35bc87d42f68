-- ===== src/Reasoning.antt =====
-- crates/reasoning-framework/src/framework.rs, repository.rs and error.rs: the frameworks, their triggers and the port.
pub mod Triggers
pub mod Selector
pub mod Calibration
pub mod Learning
use Prim.Native.String.{String}
use Prim.Native.Char.{code}
use sulix_intelligence.Prelude.{
  ℕ, ◌+◌, I64, List, [], ◌∷◌, Option, none, some, Bool, true, false, not, ◌&&◌, ◌||◌, Mut, any,
  is_empty, str_eq, ◌==◌, ltb, if◌then◌else◌, Float,
}

abbrev pub is_some : Option String → Bool
is_some none = false
is_some (some s) = true

pub data FrameworkCategory : Type 0 where
  mathematical_models financial_intelligence human_behavior : FrameworkCategory
  strategic_models systems_thinking scientific_thinking : FrameworkCategory

abbrev pub label : FrameworkCategory → String
label mathematical_models = "Mathematics"
label financial_intelligence = "Finance"
label human_behavior = "Human Behavior"
label strategic_models = "Strategy"
label systems_thinking = "Systems Thinking"
label scientific_thinking = "Scientific Thinking"

pub record TriggerRule : Type 0 where
  pub signal_type : Option String
  pub entity_type : Option String
  pub question_type : Option String
  pub keywords : List String

-- `s.eq_ignore_ascii_case(t)`
abbrev ascii_lower : ℕ → ℕ
ascii_lower c = if ltb 64 c && ltb c 91 then c + 32 else c

abbrev pub eq_ignore_ascii_case : String → String → Bool
eq_ignore_ascii_case String.[] String.[] = true
eq_ignore_ascii_case String.[] (String.◌∷◌ d t) = false
eq_ignore_ascii_case (String.◌∷◌ c s) String.[] = false
eq_ignore_ascii_case (String.◌∷◌ c s) (String.◌∷◌ d t) =
    let rest = eq_ignore_ascii_case s t in
    if ascii_lower (code c) == ascii_lower (code d) then rest else false

-- `given.is_some_and(|g| g == set)`
abbrev pub is_given : String → Option String → Bool
is_given set none = false
is_given set (some g) = str_eq g set

-- The field is set and the given value is another or missing.
abbrev pub misses : Option String → Option String → Bool
misses none given = false
misses (some set) given = not (is_given set given)

abbrev pub has_keyword : List String → List String → Bool
has_keyword ruled given = any (λ k. any (λ kw. eq_ignore_ascii_case kw k) ruled) given

unfoldable pub matches :
    TriggerRule → (signal_type entity_type question_type : Option String) → List String → Bool
matches rule signal_type entity_type question_type keywords =
    if misses rule.signal_type signal_type
    then false
    else if misses rule.entity_type entity_type
    then false
    else if misses rule.question_type question_type
    then false
    else if not (is_empty rule.keywords)
        && (not (is_empty keywords) && not (has_keyword rule.keywords keywords))
    then false
    else is_some rule.signal_type
      || (is_some rule.entity_type || (is_some rule.question_type || not (is_empty rule.keywords)))

pub record ReasoningFramework (F : Type 0) : Type 0 where
  pub id : String
  pub name : String
  pub category : FrameworkCategory
  pub description : String
  pub trigger_rules : List TriggerRule
  pub reasoning_template : String
  pub evidence_requirements : List String
  pub calibration_score : F
  pub usage_count : ℕ
  pub confidence_delta_avg : F

pub record NewFramework : Type 0 where
  pub id : String
  pub name : String
  pub category : FrameworkCategory
  pub description : String
  pub trigger_rules : List TriggerRule
  pub reasoning_template : String
  pub evidence_requirements : List String

pub record FrameworkImpact (F : Type 0) : Type 0 where
  pub framework_id : String
  pub claim_id : I64
  pub confidence_before : F
  pub confidence_after : F
  pub delta : F

module _ {F : Type 0} ⦃fl : Float F⦄ where
  unfoldable pub from_new : NewFramework → ReasoningFramework F
  from_new n = record {
    id = n.id;
    name = n.name;
    category = n.category;
    description = n.description;
    trigger_rules = n.trigger_rules;
    reasoning_template = n.reasoning_template;
    evidence_requirements = n.evidence_requirements;
    calibration_score = fl.ratio 0 1;
    usage_count = 0;
    confidence_delta_avg = fl.ratio 0 1;
  }

  unfoldable pub new_impact : String → I64 → F → F → FrameworkImpact F
  new_impact framework_id claim_id confidence_before confidence_after = record {
    framework_id = framework_id;
    claim_id = claim_id;
    confidence_before = confidence_before;
    confidence_after = confidence_after;
    delta = fl.sub confidence_after confidence_before;
  }

pub data FrameworkError : Type 0 where
  not_found invalid_trigger repository seed_error : String → FrameworkError

pub record FrameworkRepository (F St : Type 0) : Type 0 where
  pub find : String → Mut St FrameworkError (Option (ReasoningFramework F))
  pub list_by_category : FrameworkCategory → Mut St FrameworkError (List (ReasoningFramework F))
  pub list_all : Mut St FrameworkError (List (ReasoningFramework F))
  pub search : String → Mut St FrameworkError (List (ReasoningFramework F))
  pub seed : List (ReasoningFramework F) → Mut St FrameworkError (Unit {0})
  pub update_calibration : String → F → ℕ → F → Mut St FrameworkError (Unit {0})
