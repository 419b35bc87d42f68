-- ===== src/Reasoning/Learning.antt =====
-- crates/reasoning-framework/src/calibration.rs, `record_outcome`: what each framework learns.
use Prim.Native.String.{String}
use sulix_intelligence.Prelude.{
  ℕ, ◌+◌, ◌<◌, ◌%◌, ◌^◌, ◌≡◌, refl, sym, ◌∙◌, ap, arith, List, [], ◌∷◌, Option, none, some, Bool,
  ok, str_eq, if◌then◌else◌, Float, Bool-cases, >>=-run, inl, inr,
}
use text.Mathlib.TextEquality.{eq_iff}
use sulix_intelligence.Reasoning.{ReasoningFramework, FrameworkImpact, FrameworkRepository}
use sulix_intelligence.Reasoning.Calibration.{
  next_usage, next_average, outcome_score, update, record_outcome,
}

abbrev pub mapped : {A : Type 0} → (A → A) → Option A → Option A
mapped f none = none
mapped f (some a) = some (f a)

module _ {F : Type 0} ⦃fl : Float F⦄ where
  -- The mean of `n + 1` values, of which the first `n` have the given mean.
  abbrev pub mean_with : F → ℕ → F → F
  mean_with mean n value =
      fl.div (fl.add (fl.mul mean (fl.of_nat n)) value) (fl.of_nat ((n + 1) % 2 ^ 64))

  -- A framework after one impact of an outcome.
  abbrev pub learned : Bool → FrameworkImpact F → ReasoningFramework F → ReasoningFramework F
  learned achieved impact fw = record fw {
    calibration_score =
        mean_with fw.calibration_score fw.usage_count
          (if achieved then fl.ratio 1 1 else fl.ratio 0 1);
    usage_count = (fw.usage_count + 1) % 2 ^ 64;
    confidence_delta_avg = mean_with fw.confidence_delta_avg fw.usage_count impact.delta;
  }

  -- A framework after the impacts of its own, in their order, whatever the others are.
  abbrev pub learned_from :
      Bool → String → List (FrameworkImpact F) → ReasoningFramework F → ReasoningFramework F
  learned_from achieved id [] fw = fw
  learned_from achieved id (i ∷ is) fw =
      let with_it = learned_from achieved id is (learned achieved i fw) in
      let without = learned_from achieved id is fw in
      if str_eq i.framework_id id then with_it else without

  abbrev pub uses : String → List (FrameworkImpact F) → ℕ
  uses id [] = 0
  uses id (i ∷ is) = if str_eq i.framework_id id then uses id is + 1 else uses id is

  learned_from-usage_count :
      (achieved : Bool) (id : String) (is : List (FrameworkImpact F)) (fw : ReasoningFramework F)
      → fw.usage_count < 2 ^ 64
      → (learned_from achieved id is fw).usage_count ≡ (fw.usage_count + uses id is) % 2 ^ 64
  learned_from-usage_count achieved id [] fw h = omega arith
  learned_from-usage_count achieved id (i ∷ is) fw h =
      let wrap : next_usage fw.usage_count < 2 ^ 64 = omega arith in
      elim (Bool-cases (str_eq i.framework_id id)) [
        | inl own ↦
            rw own
              (omega (arith, learned_from-usage_count achieved id is (learned achieved i fw) wrap))
        | inr other ↦ rw other (learned_from-usage_count achieved id is fw h)
      ]

module _ {F : Type 0} ⦃fl : Float F⦄ where
  mapped-id :
      (achieved : Bool) (id : String) (o : Option (ReasoningFramework F))
      → mapped (learned_from achieved id []) o ≡ o
  mapped-id achieved id none = refl
  mapped-id achieved id (some fw) = refl

  mapped-step :
      (achieved : Bool) (i : FrameworkImpact F) (is : List (FrameworkImpact F)) (id : String)
      (o p : Option (ReasoningFramework F))
      → p ≡ (if str_eq i.framework_id id then mapped (learned achieved i) o else o)
      → mapped (learned_from achieved id is) p ≡ mapped (learned_from achieved id (i ∷ is)) o
  mapped-step achieved i is id none p h =
      ap (mapped (learned_from achieved id is)) h ∙ elim (Bool-cases (str_eq i.framework_id id)) [
        | inl own ↦ rw own refl
        | inr other ↦ rw other refl
      ]
  mapped-step achieved i is id (some fw) p h =
      ap (mapped (learned_from achieved id is)) h ∙ elim (Bool-cases (str_eq i.framework_id id)) [
        | inl own ↦ rw own refl
        | inr other ↦ rw other refl
      ]

-- A repository that holds a framework for each id it knows, reads it by `find` and writes the three calibration
-- columns of one id by `update_calibration`.
module _ {F St : Type 0} where
  pub record IsTable (repo : FrameworkRepository F St)
      (held : St → String → Option (ReasoningFramework F)) : Type 0 where
    pub find_held : (id : String) (s : St) → repo.find id s ≡ (ok (held s id), s)
    pub update_ok :
        (id : String) (c : F) (n : ℕ) (d : F) (s : St)
        → (repo.update_calibration id c n d s).0 ≡ ok tt
    pub update_held :
        (id : String) (c : F) (n : ℕ) (d : F) (s : St) (j : String)
        → held (repo.update_calibration id c n d s).1 j ≡ (
            if str_eq id j
            then mapped
                (λ fw. record fw {
                  calibration_score = c;
                  usage_count = n;
                  confidence_delta_avg = d;
                })
                (held s j)
            else held s j)

module _ {F St : Type 0} ⦃fl : Float F⦄ (repo : FrameworkRepository F St)
    (held : St → String → Option (ReasoningFramework F)) (table : IsTable repo held) where
  step : Bool → FrameworkImpact F → St → St
  step achieved i s = (update repo achieved i (held s i.framework_id) s).1

  update-ok :
      (achieved : Bool) (i : FrameworkImpact F) (o : Option (ReasoningFramework F)) (s : St)
      → (update repo achieved i o s).0 ≡ ok tt
  update-ok achieved i none s = refl
  update-ok achieved i (some fw) s =
      table.update_ok i.framework_id
        (next_average fw.calibration_score fw.usage_count (outcome_score achieved))
        (next_usage fw.usage_count) (next_average fw.confidence_delta_avg fw.usage_count i.delta) s

  record_outcome-step :
      (achieved : Bool) (i : FrameworkImpact F) (is : List (FrameworkImpact F)) (s : St)
      → record_outcome repo achieved (i ∷ is) s
        ≡ record_outcome repo achieved is (step achieved i s)
  unfolding record_outcome step
  record_outcome-step achieved i is s =
      let updated : update repo achieved i (held s i.framework_id) s ≡ (ok tt, step achieved i s) =
        ap (λ r. (r, step achieved i s)) (update-ok achieved i (held s i.framework_id) s) in
      rw (table.find_held i.framework_id s) (
        >>=-run (update repo achieved i (held s i.framework_id))
          (λ _. record_outcome repo achieved is) s (step achieved i s) tt
          (record_outcome repo achieved is (step achieved i s)) updated refl)

  update-held :
      (achieved : Bool) (i : FrameworkImpact F) (o : Option (ReasoningFramework F)) (s : St)
      (j : String)
      → held s i.framework_id ≡ o
      → held (update repo achieved i o s).1 j
        ≡ (if str_eq i.framework_id j then mapped (learned achieved i) (held s j) else held s j)
  update-held achieved i none s j unknown = elim (Bool-cases (str_eq i.framework_id j)) [
    | inl own ↦
        let same : held s j ≡ none =
          ap (held s) (sym ((eq_iff i.framework_id j).0 own)) ∙ unknown in
        rw own (rw same refl)
    | inr other ↦ rw other refl
  ]
  update-held achieved i (some fw) s j known =
      table.update_held i.framework_id
        (next_average fw.calibration_score fw.usage_count (outcome_score achieved))
        (next_usage fw.usage_count) (next_average fw.confidence_delta_avg fw.usage_count i.delta) s
        j
      ∙ elim (Bool-cases (str_eq i.framework_id j)) [
        | inl own ↦
            let same : held s j ≡ some fw =
              ap (held s) (sym ((eq_iff i.framework_id j).0 own)) ∙ known in
            rw own (rw same refl)
        | inr other ↦ rw other refl
      ]

  -- Over a repository that is a table by id, recording an outcome succeeds, and each framework learns from its own
  -- impacts in their order and from no other: a known one is averaged once for each of them, an unknown one stays
  -- unknown.
  pub record_outcome-learned_from :
      (achieved : Bool) (impacts : List (FrameworkImpact F)) (s : St)
      → ((record_outcome repo achieved impacts s).0 ≡ ok tt)
        × ((id : String)
            → held (record_outcome repo achieved impacts s).1 id
              ≡ mapped (learned_from achieved id impacts) (held s id))
  unfolding record_outcome step
  record_outcome-learned_from achieved [] s = (refl, λ id. sym (mapped-id achieved id (held s id)))
  record_outcome-learned_from achieved (i ∷ is) s =
      let (done, learnt) = record_outcome-learned_from achieved is (step achieved i s) in
      rw (record_outcome-step achieved i is s) (
        done,
        λ id.
            learnt id
            ∙ mapped-step achieved i is id (held s id) (held (step achieved i s) id)
                (update-held achieved i (held s i.framework_id) s id refl),
      )

  -- The usage count of a known framework, below 2 ^ 64, has grown by the number of impacts of its own, with the
  -- wrap-around of a u64.
  pub record_outcome-usage_count :
      (achieved : Bool) (impacts : List (FrameworkImpact F)) (s : St) (id : String)
      (fw : ReasoningFramework F)
      → held s id ≡ some fw
      → fw.usage_count < 2 ^ 64
      → (fw' : ReasoningFramework F) × (held (record_outcome repo achieved impacts s).1 id
          ≡ some fw')
        × (fw'.usage_count ≡ (fw.usage_count + uses id impacts) % 2 ^ 64)
  record_outcome-usage_count achieved impacts s id fw known h = (
    learned_from achieved id impacts fw,
    (record_outcome-learned_from achieved impacts s).1 id
        ∙ ap (mapped (learned_from achieved id impacts)) known,
    learned_from-usage_count achieved id impacts fw h,
  )
