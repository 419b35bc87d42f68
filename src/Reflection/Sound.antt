-- ===== src/Reflection/Sound.antt =====
-- What a valid draft is: the validation against a description that mentions no error.
use Prim.Native.String.{len}
use sulix_intelligence.Prelude.{
  ℕ, suc, List, [], ◌∷◌, ◌++◌, true, false, ◌&&◌, ◌≤◌, ◌≡◌, ◌≢◌, ◌⊎◌, ◌↔◌, is_empty, Float, in_unit,
  arith, eq_iff, All, refl,
}
use sulix_intelligence.Reflection.Types.{LessonDraft, RuleDraft, ReflectionDraft}
use sulix_intelligence.Reflection.Ports.{Texts}
use sulix_intelligence.Reflection.Validation.{
  lesson_errors, rule_errors, lessons_errors, rules_errors, draft_errors, validate,
}

is_empty-++ : {A : Type 0} → (xs ys : List A) → is_empty (xs ++ ys) ≡ (is_empty xs && is_empty ys)
is_empty-++ [] ys = refl
is_empty-++ (x ∷ xs) ys = refl

module _ {F : Type 0} ⦃fl : Float F⦄ where
  abbrev pub IsLesson : LessonDraft F → Type 0
  IsLesson l =
      (20 ≤ len l.description) × (in_unit l.confidence ≡ true) × (is_empty l.evidence_basis ≡ false)

  abbrev pub IsRule : RuleDraft F → Type 0
  IsRule r = (r.action_type ≢ "") × (r.action_instruction ≢ "") × (in_unit r.confidence ≡ true)

  abbrev pub IsSound : ReflectionDraft F → Type 0
  IsSound d =
      ((d.result ≡ "correct") ⊎ (d.result ≡ "wrong") ⊎ (d.result ≡ "mixed"))
      × (is_empty d.lessons ≡ false)
      × All IsLesson d.lessons
      × All IsRule d.rules

module _ {F : Type 0} ⦃fl : Float F⦄ (texts : Texts F) where
  lesson_errors-IsLesson :
      (i : ℕ) (l : LessonDraft F) → (is_empty (lesson_errors texts i l) ≡ true) ↔ IsLesson l
  unfolding lesson_errors
  lesson_errors-IsLesson i l = ground arith

  rule_errors-IsRule :
      (i : ℕ) (r : RuleDraft F) → (is_empty (rule_errors texts i r) ≡ true) ↔ IsRule r
  unfolding rule_errors
  rule_errors-IsRule i r = ground (arith, eq_iff r.action_type "", eq_iff r.action_instruction "")

  lessons_errors-All :
      (i : ℕ) (ls : List (LessonDraft F))
      → (is_empty (lessons_errors texts i ls) ≡ true) ↔ All IsLesson ls
  unfolding lessons_errors
  lessons_errors-All i [] = (λ h. tt, λ h. refl)
  lessons_errors-All i (l ∷ ls) = ground (
    arith,
    is_empty-++ (lesson_errors texts i l) (lessons_errors texts (suc i) ls),
    lesson_errors-IsLesson i l,
    lessons_errors-All (suc i) ls,
  )

  rules_errors-All :
      (i : ℕ) (rs : List (RuleDraft F))
      → (is_empty (rules_errors texts i rs) ≡ true) ↔ All IsRule rs
  unfolding rules_errors
  rules_errors-All i [] = (λ h. tt, λ h. refl)
  rules_errors-All i (r ∷ rs) = ground (
    arith,
    is_empty-++ (rule_errors texts i r) (rules_errors texts (suc i) rs),
    rule_errors-IsRule i r,
    rules_errors-All (suc i) rs,
  )

  -- A draft is valid exactly when it is sound: the verdict is known, there is a lesson, every lesson has a
  -- description of at least 20 bytes and some evidence, every rule has an action and an instruction, and the
  -- confidences are in [0, 1].
  pub validate-IsSound : (d : ReflectionDraft F) → ((validate texts d).valid ≡ true) ↔ IsSound d
  unfolding validate draft_errors
  validate-IsSound d = ground (
    arith,
    is_empty-++ (lessons_errors texts 0 d.lessons) (rules_errors texts 0 d.rules),
    lessons_errors-All 0 d.lessons,
    rules_errors-All 0 d.rules,
    eq_iff d.result "correct",
    eq_iff d.result "wrong",
    eq_iff d.result "mixed",
  )
