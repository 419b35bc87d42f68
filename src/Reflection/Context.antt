-- ===== src/Reflection/Context.antt =====
-- crates/intelligence/reflection-engine/src/context.rs: the context that a generator is given.
use sulix_intelligence.Prelude.{
  I64, [], Option, none, some, Bool, true, false, Float, get_or, str_eq, if◌then◌else◌, Mut, ◌>>=◌,
  return, fail,
}
use sulix_intelligence.Reflection.Types.{
  ReflectionError, decision_not_found, DecisionFacts, ReflectionContext,
}
use sulix_intelligence.Reflection.Ports.{ReflectionRepository}

abbrev is_some {ℓ} : {A : Type ℓ} → Option A → Bool
is_some none = false
is_some (some a) = true

module _ {F : Type 0} ⦃fl : Float F⦄ where
  -- 0.3 for the decision, 0.2 for a thesis, 0.3 for an outcome, and 0.2 for the evidence in any case.
  unfoldable pub completeness : DecisionFacts F → F
  completeness facts =
      fl.add
        (fl.add
          (fl.add (fl.ratio 3 10)
            (if str_eq (get_or facts.hypothesis "") "" then fl.ratio 0 1 else fl.ratio 2 10))
          (if is_some facts.outcome then fl.ratio 3 10 else fl.ratio 0 1))
        (fl.ratio 2 10)

  unfoldable pub context_of : DecisionFacts F → ReflectionContext F
  unfolding completeness
  context_of facts = record {
    decision = record {
      id = facts.decision_id;
      title = facts.title;
      decision_type = facts.decision_type;
    };
    thesis = record {
      hypothesis = get_or facts.hypothesis "";
      assumptions = [];
      initial_confidence = facts.confidence;
    };
    outcome = facts.outcome;
    evaluations = facts.evaluations;
    evidence = [];
    completeness_score = completeness facts;
  }

module _ {F St : Type 0} ⦃fl : Float F⦄ (repo : ReflectionRepository F St) where
  unfoldable pub build : I64 → Mut St ReflectionError (ReflectionContext F)
  unfolding context_of
  build id = do
    facts ← repo.load_decision_context id
    elim facts [ none ↦ fail (decision_not_found id) | some f ↦ return (context_of f) ]
