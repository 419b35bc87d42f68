-- ===== src/Reasoning/Calibration.antt =====
-- crates/reasoning-framework/src/calibration.rs: the feedback of outcomes to the frameworks.
use Prim.Native.String.{String}
use sulix_intelligence.Prelude.{
  ℕ, ◌+◌, ◌%◌, ◌^◌, List, [], ◌∷◌, map, Option, none, some, Bool, Mut, ◌>>=◌, return, filterb,
  sort_by, leb, if◌then◌else◌, Float,
}
use sulix_intelligence.Reasoning.{
  ReasoningFramework, FrameworkImpact, FrameworkError, FrameworkRepository,
}

-- A usage count is a u64.
abbrev pub next_usage : ℕ → ℕ
next_usage n = (n + 1) % 2 ^ 64

module _ {F : Type 0} ⦃fl : Float F⦄ where
  -- The running average with one value more.
  abbrev pub next_average : F → ℕ → F → F
  next_average average n value =
      fl.div (fl.add (fl.mul average (fl.of_nat n)) value) (fl.of_nat (next_usage n))

  abbrev pub outcome_score : Bool → F
  outcome_score achieved = if achieved then fl.ratio 1 1 else fl.ratio 0 1

  abbrev pub more_accurate : ReasoningFramework F → ReasoningFramework F → Bool
  more_accurate a b = fl.lt b.calibration_score a.calibration_score

module _ {F St : Type 0} ⦃fl : Float F⦄ (repo : FrameworkRepository F St) where
  abbrev pub update :
      Bool → FrameworkImpact F → Option (ReasoningFramework F) → Mut St FrameworkError (Unit {0})
  update achieved impact none = return tt
  update achieved impact (some framework) =
      repo.update_calibration impact.framework_id
        (next_average framework.calibration_score framework.usage_count (outcome_score achieved))
        (next_usage framework.usage_count)
        (next_average framework.confidence_delta_avg framework.usage_count impact.delta)

  unfoldable pub record_outcome : Bool → List (FrameworkImpact F) → Mut St FrameworkError (Unit {0})
  record_outcome achieved [] = return tt
  record_outcome achieved (impact ∷ impacts) = do
    framework ← repo.find impact.framework_id
    _ ← update achieved impact framework
    record_outcome achieved impacts

  unfoldable pub top_frameworks : ℕ → Mut St FrameworkError (List String)
  top_frameworks min_usage = do
    frameworks ← repo.list_all
    return (
        map (λ fw. fw.id)
          (sort_by more_accurate (filterb (λ fw. leb min_usage fw.usage_count) frameworks)))
