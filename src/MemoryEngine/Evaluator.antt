-- ===== src/MemoryEngine/Evaluator.antt =====
-- crates/memory-engine/src/evaluator.rs: the gate and the score.
use Prim.Native.String.{String, ◌++◌}
use sulix_intelligence.Prelude.{Bool, not, Option, none, some, Float, if◌then◌else◌}
use sulix_intelligence.MemoryEngine.Types.{PromotionScore, MemoryTexts}

pub data EvaluationResult (G : Type 0) : Type 0 where
  promotion review : PromotionScore G → EvaluationResult G
  archive : String → EvaluationResult G

module _ {F : Type 0} ⦃fl : Float F⦄ where
  unfoldable pub check_gate : F → Bool → Bool → Bool → Option (Unit {0})
  check_gate quality_score has_outcome has_evidence has_lessons_or_rules =
      if fl.lt quality_score (fl.ratio 7 10)
      then none
      else if not has_outcome
      then none
      else if not has_evidence
      then none
      else if not has_lessons_or_rules
      then none
      else some tt

module _ {G : Type 0} ⦃fl : Float G⦄ where
  unfoldable pub calculate_score : G → G → G → G → G → PromotionScore G
  calculate_score confidence recurrence impact evidence stability = record {
    confidence = confidence;
    recurrence = recurrence;
    impact = impact;
    evidence = evidence;
    stability = stability;
    total =
        fl.add
          (fl.add
            (fl.add
              (fl.add (fl.mul (fl.ratio 25 100) confidence) (fl.mul (fl.ratio 20 100) recurrence))
              (fl.mul (fl.ratio 20 100) impact))
            (fl.mul (fl.ratio 20 100) evidence))
          (fl.mul (fl.ratio 15 100) stability);
  }

  -- The verdict on a score that is past the gate.
  unfoldable pub verdict_of : (G → String) → PromotionScore G → EvaluationResult G
  verdict_of fixed2 score =
      if fl.lt (fl.ratio 75 100) score.total
      then promotion score
      else if fl.le (fl.ratio 4 10) score.total
      then review score
      else archive ("score too low: " ++ fixed2 score.total)

module _ {F G : Type 0} ⦃f64 : Float F⦄ ⦃f32 : Float G⦄ (texts : MemoryTexts F G) where
  abbrev gated : Option (Unit {0}) → EvaluationResult G → EvaluationResult G
  gated none r = archive "promotion gate failed"
  gated (some u) r = r

  unfoldable pub evaluate : F → Bool → Bool → Bool → G → G → G → EvaluationResult G
  unfolding check_gate calculate_score verdict_of
  evaluate quality_score has_outcome has_evidence has_lessons_or_rules recurrence impact stability =
      gated (check_gate quality_score has_outcome has_evidence has_lessons_or_rules) (
        verdict_of texts.fixed2 (
          calculate_score (texts.narrow quality_score) recurrence impact (f32.ratio 8 10)
            stability))
