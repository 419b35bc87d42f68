-- ===== src/Reasoning/Triggers.antt =====
-- crates/reasoning-framework/src/framework.rs, `TriggerRule::matches`: when a rule fires.
use Prim.Native.String.{String}
use text.Mathlib.TextEquality.{eq_iff}
use sulix_intelligence.Prelude.{
  ◌≡◌, refl, ap, List, [], ◌∷◌, Option, none, some, Bool, true, false, not, ◌&&◌, ◌||◌, is_empty,
  str_eq, if◌then◌else◌, Bool-cases, inl, inr, ◌↔◌,
}
use sulix_intelligence.Reasoning.{TriggerRule, is_some, misses, has_keyword, matches}

-- A field that is set has the given value.
abbrev pub Agrees : Option String → Option String → Type 0
Agrees none given = Unit
Agrees (some set) given = given ≡ some set

abbrev pub KeywordsAgree : List String → List String → Type 0
KeywordsAgree [] given = Unit
KeywordsAgree (kw ∷ ruled) [] = Unit
KeywordsAgree (kw ∷ ruled) (k ∷ given) = has_keyword (kw ∷ ruled) (k ∷ given) ≡ true

-- The rule has a condition.
abbrev pub HasCondition : TriggerRule → Type 0
HasCondition rule =
    (is_some rule.signal_type
      || (is_some rule.entity_type || (is_some rule.question_type || not (is_empty rule.keywords))))
    ≡ true

misses-Agrees : (set given : Option String) → misses set given ≡ false → Agrees set given
misses-Agrees none given h = tt
misses-Agrees (some t) none h = cc
misses-Agrees (some t) (some g) h = elim (Bool-cases (str_eq g t)) [
  | inl same ↦ ap some ((eq_iff g t).0 same)
  | inr other ↦ cc
]

Agrees-misses : (set given : Option String) → Agrees set given → misses set given ≡ false
Agrees-misses none given h = refl
Agrees-misses (some t) given h = rw h (rw ((eq_iff t t).1 refl) refl)

abbrev keywords_miss : List String → List String → Bool
keywords_miss ruled given =
    not (is_empty ruled) && (not (is_empty given) && not (has_keyword ruled given))

keywords_miss-KeywordsAgree :
    (ruled given : List String) → keywords_miss ruled given ≡ false → KeywordsAgree ruled given
keywords_miss-KeywordsAgree [] given h = tt
keywords_miss-KeywordsAgree (kw ∷ ruled) [] h = tt
keywords_miss-KeywordsAgree (kw ∷ ruled) (k ∷ given) h =
    elim (Bool-cases (has_keyword (kw ∷ ruled) (k ∷ given))) [ inl hit ↦ hit | inr miss ↦ cc ]

KeywordsAgree-keywords_miss :
    (ruled given : List String) → KeywordsAgree ruled given → keywords_miss ruled given ≡ false
KeywordsAgree-keywords_miss [] given h = refl
KeywordsAgree-keywords_miss (kw ∷ ruled) [] h = refl
KeywordsAgree-keywords_miss (kw ∷ ruled) (k ∷ given) h = rw h refl

-- All that a context agrees with.
abbrev pub Fires :
    TriggerRule → (signal_type entity_type question_type : Option String) → List String → Type 0
Fires rule signal_type entity_type question_type keywords =
    Agrees rule.signal_type signal_type
    × Agrees rule.entity_type entity_type
    × Agrees rule.question_type question_type
    × KeywordsAgree rule.keywords keywords
    × HasCondition rule

all_pass :
    (a b c d e : Bool)
    → (if a then false else if b then false else if c then false else if d then false else e) ≡ true
    → (a ≡ false) × (b ≡ false) × (c ≡ false) × (d ≡ false) × (e ≡ true)
all_pass true b c d e h = cc
all_pass false true c d e h = cc
all_pass false false true d e h = cc
all_pass false false false true e h = cc
all_pass false false false false e h = (refl, refl, refl, refl, h)

-- A rule matches a context exactly where it has a condition, each field it sets has the context's value, and it
-- shares a keyword with the context where both have keywords.
pub matches-Fires :
    (rule : TriggerRule) (signal_type entity_type question_type : Option String)
    (keywords : List String)
    → (matches rule signal_type entity_type question_type keywords ≡ true)
      ↔ Fires rule signal_type entity_type question_type keywords
unfolding matches
matches-Fires rule signal_type entity_type question_type keywords = (
  λ h.
      let (a, b, c, d, e) =
        all_pass (misses rule.signal_type signal_type) (misses rule.entity_type entity_type)
          (misses rule.question_type question_type) (keywords_miss rule.keywords keywords) _ h in
      (
        misses-Agrees rule.signal_type signal_type a,
        misses-Agrees rule.entity_type entity_type b,
        misses-Agrees rule.question_type question_type c,
        keywords_miss-KeywordsAgree rule.keywords keywords d,
        e,
      ),
  λ (a, b, c, d, e). rw (Agrees-misses rule.signal_type signal_type a) (
      rw (Agrees-misses rule.entity_type entity_type b) (
        rw (Agrees-misses rule.question_type question_type c)
          (rw (KeywordsAgree-keywords_miss rule.keywords keywords d) e))),
)
