-- ===== src/Signals/Scoring.antt =====
-- crates/intelligence/signal-engine/src/scoring/{impact,health,semantic}.rs.
use Prim.Native.String.{String}
use sulix_intelligence.Prelude.{
  ℕ, ◌+◌, List, [], ◌∷◌, if◌then◌else◌, Float, clamp_unit, str_eq, ◌==◌, ltb,
}

module _ {F : Type 0} ⦃fl : Float F⦄ where
  abbrev pub score_to_impact : F → String
  score_to_impact score =
      if fl.le (fl.ratio 7 10) score
      then "High"
      else if fl.le (fl.ratio 4 10) score
      then "Medium"
      else "Low"

abbrev pub total : List ℕ → ℕ
total [] = 0
total (n ∷ ns) = n + total ns

abbrev pub largest : List ℕ → ℕ
largest [] = 0
largest (n ∷ ns) = let rest = largest ns in if ltb rest n then n else rest

-- The counts stand for i64 values, which are not negative where the store counts rows.
pub record SignalHealthMetrics (F : Type 0) : Type 0 where
  pub article_count : ℕ
  pub source_count : ℕ
  pub avg_score : F
  pub trend : String
  pub days_active : F

pub record SemanticClusterScoreInput (F : Type 0) : Type 0 where
  pub avg_similarity : F
  pub entity_focus : F
  pub temporal_momentum : F
  pub source_diversity : F

module _ {F : Type 0} ⦃fl : Float F⦄ where
  abbrev pub velocity : String → F
  velocity trend =
      if str_eq trend "rising"
      then fl.ratio 1 1
      else if str_eq trend "stable"
      then fl.ratio 5 10
      else fl.ratio 15 100

  abbrev pub activity : SignalHealthMetrics F → F
  activity m =
      fl.div (fl.min (fl.div (fl.of_nat m.article_count) m.days_active) (fl.ratio 10 1))
        (fl.ratio 10 1)

  abbrev pub diversity : SignalHealthMetrics F → F
  diversity m = fl.div (fl.min (fl.of_nat m.source_count) (fl.ratio 15 1)) (fl.ratio 15 1)

  abbrev pub quality : SignalHealthMetrics F → F
  quality m = clamp_unit (fl.div m.avg_score (fl.ratio 10 1))

  -- `(x * 100.0).round() / 100.0`
  abbrev pub round2 : F → F
  round2 x = fl.div (fl.round (fl.mul x (fl.ratio 100 1))) (fl.ratio 100 1)

  unfoldable pub calculate_health : SignalHealthMetrics F → F
  calculate_health m = round2 (
      fl.add
        (fl.add
          (fl.add (fl.mul (fl.ratio 35 100) (activity m)) (fl.mul (fl.ratio 25 100) (diversity m)))
          (fl.mul (fl.ratio 20 100) (quality m)))
        (fl.mul (fl.ratio 20 100) (velocity m.trend)))

  unfoldable pub health_breakdown : SignalHealthMetrics F → F × F × F × F
  health_breakdown m =
      (round2 (activity m), round2 (diversity m), round2 (quality m), round2 (velocity m.trend))

  unfoldable pub signal_score_v2 : SemanticClusterScoreInput F → F
  signal_score_v2 input =
      let cohesion = clamp_unit input.avg_similarity in
      let focus = clamp_unit input.entity_focus in
      let momentum = clamp_unit input.temporal_momentum in
      let diverse = clamp_unit input.source_diversity in
      fl.add
        (fl.add (fl.add (fl.mul (fl.ratio 30 100) cohesion) (fl.mul (fl.ratio 25 100) focus))
          (fl.mul (fl.ratio 25 100) (fl.min momentum (fl.ratio 1 1))))
        (fl.mul (fl.ratio 20 100) diverse)

  -- A sum of u64 counts, taken not to wrap.
  unfoldable pub entity_focus : List ℕ → F
  entity_focus counts =
      if total counts == 0
      then fl.ratio 0 1
      else fl.div (fl.of_nat (largest counts)) (fl.of_nat (total counts))

  unfoldable pub temporal_momentum : F → F → F
  temporal_momentum recent_count historical_count =
      if fl.le historical_count (fl.ratio 0 1)
      then fl.ratio 1 1
      else fl.div recent_count historical_count

  unfoldable pub source_diversity : ℕ → ℕ → F
  source_diversity unique_sources total_articles =
      if total_articles == 0
      then fl.ratio 0 1
      else clamp_unit (fl.div (fl.of_nat unique_sources) (fl.of_nat total_articles))
