-- ===== src/MemoryEngine/Laws.antt =====
-- When a reflection is promoted to a memory.
use sulix_intelligence.Prelude.{Bool, true, false, ◌≡◌, Float, arith}
use sulix_intelligence.MemoryEngine.Types.{PromotionScore, MemoryTexts}
use sulix_intelligence.MemoryEngine.Evaluator.{promotion, calculate_score, evaluate}

module _ {F G : Type 0} ⦃f64 : Float F⦄ ⦃f32 : Float G⦄ (texts : MemoryTexts F G) where
  -- A promotion passed the whole gate, its score is the weighted sum of the inputs, and is above 0.75.
  pub evaluate-promotion :
      (quality_score : F) (has_outcome has_evidence has_lessons_or_rules : Bool)
      (recurrence impact stability : G) (score : PromotionScore G)
      → evaluate texts quality_score has_outcome has_evidence has_lessons_or_rules recurrence impact
          stability
        ≡ promotion score
      → (f64.lt quality_score (f64.ratio 7 10) ≡ false)
        × (has_outcome ≡ true)
        × (has_evidence ≡ true)
        × (has_lessons_or_rules ≡ true)
        × (score
            ≡ calculate_score
                (texts.narrow quality_score)
                recurrence
                impact
                (f32.ratio 8 10)
                stability)
        × (f32.lt (f32.ratio 75 100) score.total ≡ true)
  unfolding evaluate
  evaluate-promotion quality_score has_outcome has_evidence has_lessons_or_rules recurrence impact
        stability score h =
      ground arith
