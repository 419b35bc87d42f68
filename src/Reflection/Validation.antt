-- ===== src/Reflection/Validation.antt =====
-- crates/intelligence/reflection-engine/src/validation.rs: the check of a draft before it is stored.
use Prim.Native.String.{String, len}
use sulix_intelligence.Prelude.{
  ℕ, suc, List, [], ◌∷◌, ◌++◌, Bool, ◌||◌, not, ltb, is_empty, str_eq, Float, in_unit, clamp_unit,
  if◌then◌else◌,
}
use sulix_intelligence.Reflection.Messages.{about, invalid_result, too_short, out_of_range}
use sulix_intelligence.Reflection.Types.{LessonDraft, RuleDraft, ReflectionDraft}
use sulix_intelligence.Reflection.Ports.{Texts}

pub record ValidationResult (F : Type 0) : Type 0 where
  pub valid : Bool
  pub quality_score : F
  pub errors : List String
  pub warnings : List String

-- `if c { errors.push(e) }`
abbrev pub when : Bool → String → List String
when c e = if c then e ∷ [] else []

module _ {F : Type 0} ⦃fl : Float F⦄ (texts : Texts F) where
  unfoldable pub lesson_errors : ℕ → LessonDraft F → List String
  lesson_errors i l =
      when (ltb (len l.description) 20) (about "lesson" i (too_short l.description))
      ++ when (not (in_unit l.confidence)) (about "lesson" i (out_of_range texts l.confidence))
      ++ when (is_empty l.evidence_basis)
          (about "lesson" i "evidence_basis is empty (must be traceable)")

  unfoldable pub rule_errors : ℕ → RuleDraft F → List String
  rule_errors i r =
      when (str_eq r.action_type "") (about "rule" i "action_type is required")
      ++ when (str_eq r.action_instruction "") (about "rule" i "action_instruction is required")
      ++ when (not (in_unit r.confidence)) (about "rule" i (out_of_range texts r.confidence))

  unfoldable pub lessons_errors : ℕ → List (LessonDraft F) → List String
  unfolding lesson_errors
  lessons_errors i [] = []
  lessons_errors i (l ∷ ls) = lesson_errors i l ++ lessons_errors (suc i) ls

  unfoldable pub rules_errors : ℕ → List (RuleDraft F) → List String
  unfolding rule_errors
  rules_errors i [] = []
  rules_errors i (r ∷ rs) = rule_errors i r ++ rules_errors (suc i) rs

  unfoldable pub draft_errors : ReflectionDraft F → List String
  unfolding lessons_errors rules_errors
  draft_errors draft =
      when
        (not (
          str_eq draft.result "correct"
          || str_eq draft.result "wrong"
          || str_eq draft.result "mixed"))
        (invalid_result draft.result)
      ++ when (is_empty draft.lessons) "at least 1 lesson required"
      ++ lessons_errors 0 draft.lessons
      ++ rules_errors 0 draft.rules

  unfoldable pub validate : ReflectionDraft F → ValidationResult F
  unfolding draft_errors
  validate draft = record {
    valid = is_empty (draft_errors draft);
    quality_score = clamp_unit draft.quality_score;
    errors = draft_errors draft;
    warnings = [];
  }
