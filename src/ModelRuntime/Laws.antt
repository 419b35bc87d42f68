-- ===== src/ModelRuntime/Laws.antt =====
-- Which provider a request goes to.
use sulix_intelligence.Prelude.{
  ℕ, ◌≡◌, refl, true_not_false, ap, ◌∙◌, List, [], ◌∷◌, ◌++◌, true, false, any, map, arith, Mut,
  err, ◌⊎◌, inl, inr, ◌↔◌, Bool-cases,
}
use sulix_intelligence.ModelRuntime.{
  ModelTask, summarization, claim_extraction, reflection, agent_answer, ModelRequest, ProviderEntry,
  Capability, fast_generation, reasoning, long_context, structured_output, capability_eq, satisfies,
  task_capabilities, first_match, fallback, generate,
}

-- The list has the capability.
abbrev pub Has : Capability → List Capability → Type 0
Has c [] = ⊥
Has c (d ∷ ds) = (d ≡ c) ⊎ Has c ds

capability_eq_iff : (c d : Capability) → (capability_eq c d ≡ true) ↔ (c ≡ d)
unfolding capability_eq
capability_eq_iff c d = ground arith

Has-any :
    (c : Capability) (ds : List Capability) → Has c ds → any (λ d. capability_eq d c) ds ≡ true
Has-any c [] h = absurd h
Has-any c (d ∷ ds) (inl same) = rw ((capability_eq_iff d c).1 same) refl
Has-any c (d ∷ ds) (inr later) = ground (arith, Has-any c ds later)

any-Has :
    (c : Capability) (ds : List Capability) → any (λ d. capability_eq d c) ds ≡ true → Has c ds
any-Has c [] h = cc
any-Has c (d ∷ ds) h = elim (Bool-cases (capability_eq d c)) [
  | inl same ↦ inl ((capability_eq_iff d c).0 same)
  | inr other ↦ inr (any-Has c ds (ground arith))
]

module _ {F J R E St : Type 0} where
  abbrev pub with_priority :
      (ProviderEntry F J R E St → ℕ) → ProviderEntry F J R E St → ProviderEntry F J R E St
  with_priority p e = record e { priority = p e }

  -- The entry has every capability that the task needs.
  abbrev pub Serves : ModelTask → ProviderEntry F J R E St → Type 0
  Serves summarization e = Has fast_generation e.capabilities × Has structured_output e.capabilities
  Serves claim_extraction e = Has reasoning e.capabilities × Has structured_output e.capabilities
  Serves reflection e = Has reasoning e.capabilities × Has long_context e.capabilities
  Serves agent_answer e = Has reasoning e.capabilities

  satisfies-Serves :
      (task : ModelTask) (e : ProviderEntry F J R E St)
      → Serves task e
      → satisfies e.capabilities (task_capabilities task) ≡ true
  unfolding satisfies task_capabilities
  satisfies-Serves summarization e (h, k) =
      rw (Has-any fast_generation e.capabilities h)
        (rw (Has-any structured_output e.capabilities k) refl)
  satisfies-Serves claim_extraction e (h, k) =
      rw (Has-any reasoning e.capabilities h) (rw (Has-any structured_output e.capabilities k) refl)
  satisfies-Serves reflection e (h, k) =
      rw (Has-any reasoning e.capabilities h) (rw (Has-any long_context e.capabilities k) refl)
  satisfies-Serves agent_answer e h = rw (Has-any reasoning e.capabilities h) refl

  Serves-satisfies :
      (task : ModelTask) (e : ProviderEntry F J R E St)
      → satisfies e.capabilities (task_capabilities task) ≡ true
      → Serves task e
  unfolding satisfies task_capabilities
  Serves-satisfies summarization e h = (
    any-Has fast_generation e.capabilities (ground (arith, h)),
    any-Has structured_output e.capabilities (ground (arith, h)),
  )
  Serves-satisfies claim_extraction e h = (
    any-Has reasoning e.capabilities (ground (arith, h)),
    any-Has structured_output e.capabilities (ground (arith, h)),
  )
  Serves-satisfies reflection e h = (
    any-Has reasoning e.capabilities (ground (arith, h)),
    any-Has long_context e.capabilities (ground (arith, h)),
  )
  Serves-satisfies agent_answer e h = any-Has reasoning e.capabilities (ground (arith, h))

  fails-Serves :
      (task : ModelTask) (e : ProviderEntry F J R E St)
      → ¬ Serves task e
      → satisfies e.capabilities (task_capabilities task) ≡ false
  fails-Serves task e h = elim (Bool-cases (satisfies e.capabilities (task_capabilities task))) [
    | inl fits ↦ absurd (h (Serves-satisfies task e fits))
    | inr misses ↦ misses
  ]

  -- No entry of the list serves the task.
  abbrev pub NoneServes : ModelTask → List (ProviderEntry F J R E St) → Type 0
  NoneServes task [] = Unit
  NoneServes task (e ∷ es) = (¬ Serves task e) × NoneServes task es

  first_match-NoneServes :
      (task : ModelTask) (entries rest : List (ProviderEntry F J R E St))
      (request : ModelRequest F J) (after : Mut St E R)
      → NoneServes task entries
      → first_match (task_capabilities task) (entries ++ rest) request after
        ≡ first_match (task_capabilities task) rest request after
  unfolding first_match
  first_match-NoneServes task [] rest request after h = refl
  first_match-NoneServes task (e ∷ es) rest request after (h, hs) =
      rw (fails-Serves task e h) (first_match-NoneServes task es rest request after hs)

  first_match-unserved :
      (task : ModelTask) (entries : List (ProviderEntry F J R E St)) (request : ModelRequest F J)
      (after : Mut St E R)
      → NoneServes task entries
      → first_match (task_capabilities task) entries request after ≡ after
  unfolding first_match
  first_match-unserved task [] request after h = refl
  first_match-unserved task (e ∷ es) request after (h, hs) =
      rw (fails-Serves task e h) (first_match-unserved task es request after hs)

  all_unserved :
      (none_registered : E) (e : ProviderEntry F J R E St) (es : List (ProviderEntry F J R E St))
      (request : ModelRequest F J)
      → NoneServes request.task (e ∷ es)
      → generate none_registered (e ∷ es) request ≡ e.provider.generate request
  unfolding generate
  all_unserved none_registered e es request h =
      first_match-unserved request.task (e ∷ es) request (e.provider.generate request) h

  -- The first entry of the list that serves the task, with the entries around it.
  abbrev pub FirstServing :
      ModelTask → List (ProviderEntry F J R E St) → ProviderEntry F J R E St → Type 0
  FirstServing task entries e =
      (before : List (ProviderEntry F J R E St)) × (after : List (ProviderEntry F J R E St))
      × (entries ≡ before ++ e ∷ after)
      × NoneServes task before
      × Serves task e

  first_serving :
      (task : ModelTask) (entries : List (ProviderEntry F J R E St))
      → ((e : ProviderEntry F J R E St) × FirstServing task entries e) ⊎ NoneServes task entries
  first_serving task [] = inr tt
  first_serving task (e ∷ es) =
      elim (Bool-cases (satisfies e.capabilities (task_capabilities task))) [
        | inl fits ↦ inl (e, ([], es, refl, tt, Serves-satisfies task e fits))
        | inr misses ↦
            let barred : ¬ Serves task e = λ serves.
              true_not_false (satisfies e.capabilities (task_capabilities task))
                (satisfies-Serves task e serves) misses in
            elim (first_serving task es) [
              | inl (d, (before, after, same, earlier, serves)) ↦
                  inl (d, (e ∷ before, after, ap (◌∷◌ e) same, (barred, earlier), serves))
              | inr without ↦ inr (barred, without)
            ]
      ]

  generate-FirstServing :
      (none_registered : E) (entries : List (ProviderEntry F J R E St)) (request : ModelRequest F J)
      (e : ProviderEntry F J R E St)
      → FirstServing request.task entries e
      → generate none_registered entries request ≡ e.provider.generate request
  unfolding generate first_match
  generate-FirstServing none_registered entries request e (before, after, same, earlier, serves) =
      rw same (
        first_match-NoneServes request.task before (e ∷ after) request
          (fallback none_registered (before ++ e ∷ after) request) earlier
        ∙ rw (satisfies-Serves request.task e serves) refl)

  -- Where a request goes: to the first entry that serves its task, or, where none does, to the first entry of all, or,
  -- where there is none, nowhere.
  abbrev pub Goes : E → List (ProviderEntry F J R E St) → ModelRequest F J → Mut St E R → Type 0
  Goes none_registered entries request sent =
      ((e : ProviderEntry F J R E St) × FirstServing request.task entries e
        × (sent ≡ e.provider.generate request))
      ⊎ ((e : ProviderEntry F J R E St) × (es : List (ProviderEntry F J R E St)) × (entries
            ≡ e ∷ es)
          × NoneServes request.task entries
          × (sent ≡ e.provider.generate request))
      ⊎ ((entries ≡ []) × (sent ≡ λ s. (err none_registered, s)))

  generate-NoneServes :
      (none_registered : E) (entries : List (ProviderEntry F J R E St)) (request : ModelRequest F J)
      → NoneServes request.task entries
      → Goes none_registered entries request (generate none_registered entries request)
  unfolding generate first_match
  generate-NoneServes none_registered [] request h = inr (inr (refl, refl))
  generate-NoneServes none_registered (e ∷ es) request h =
      inr (inl (e, es, refl, h, all_unserved none_registered e es request h))

  -- A request goes to the first entry that has every capability of its task (fast generation and structured output
  -- for a summary, reasoning and structured output for claims, reasoning and long context for a reflection,
  -- reasoning for an answer); where no entry has, it goes to the first entry of all; where there is no entry it is
  -- the error of an empty router.
  pub generate-Goes :
      (none_registered : E) (entries : List (ProviderEntry F J R E St)) (request : ModelRequest F J)
      → Goes none_registered entries request (generate none_registered entries request)
  generate-Goes none_registered entries request = elim (first_serving request.task entries) [
    | inl (e, serving) ↦
        inl (e, serving, generate-FirstServing none_registered entries request e serving)
    | inr without ↦ generate-NoneServes none_registered entries request without
  ]

  first_match-with_priority :
      (p : ProviderEntry F J R E St → ℕ) (required : List Capability)
      (entries : List (ProviderEntry F J R E St)) (request : ModelRequest F J) (after : Mut St E R)
      → first_match required (map (with_priority p) entries) request after
        ≡ first_match required entries request after
  unfolding first_match
  first_match-with_priority p required [] request after = refl
  first_match-with_priority p required (e ∷ es) request after =
      ground (arith, first_match-with_priority p required es request after)

  -- The priorities of the entries make no difference.
  pub generate-with_priority :
      (p : ProviderEntry F J R E St → ℕ) (none_registered : E)
      (entries : List (ProviderEntry F J R E St)) (request : ModelRequest F J)
      → generate none_registered (map (with_priority p) entries) request
        ≡ generate none_registered entries request
  unfolding generate
  generate-with_priority p none_registered [] request = refl
  generate-with_priority p none_registered (e ∷ es) request =
      first_match-with_priority p (task_capabilities request.task) (e ∷ es) request
        (e.provider.generate request)
