-- ===== src/ModelRuntime.antt =====
-- crates/model-runtime/src/{types,provider,router}.rs: the routing of a model request. `F` stands for f64, `J` for
-- `serde_json::Value`, `R` for the response, and `St` for the state behind the providers.
pub mod Laws
use Prim.Native.String.{String}
use sulix_intelligence.Prelude.{
  ℕ, List, [], ◌∷◌, ◌++◌, Option, Bool, true, false, any, all, Mut, fail, if◌then◌else◌,
}

pub data ModelTask : Type 0 where
  summarization claim_extraction reflection agent_answer : ModelTask

pub record ContextBlock (F : Type 0) : Type 0 where
  pub title : String
  pub content : String
  pub priority : F

pub record GenerationParams (F : Type 0) : Type 0 where
  pub temperature : F
  pub max_tokens : ℕ

pub record ModelRequest (F J : Type 0) : Type 0 where
  pub task : ModelTask
  pub system_prompt : String
  pub context : List (ContextBlock F)
  pub output_schema : Option J
  pub parameters : GenerationParams F

pub record ModelCapabilities : Type 0 where
  pub provider : String
  pub model_name : String
  pub context_window : ℕ
  pub supports_json : Bool

pub data Capability : Type 0 where
  fast_generation reasoning long_context structured_output low_cost : Capability

-- The derived `PartialEq`.
unfoldable pub capability_eq : Capability → Capability → Bool
capability_eq fast_generation fast_generation = true
capability_eq reasoning reasoning = true
capability_eq long_context long_context = true
capability_eq structured_output structured_output = true
capability_eq low_cost low_cost = true
capability_eq _ _ = false

-- The trait; `E` is its error.
pub record ModelProvider (F J R E St : Type 0) : Type 0 where
  pub capabilities : ModelCapabilities
  pub generate : ModelRequest F J → Mut St E R

pub record ProviderEntry (F J R E St : Type 0) : Type 0 where
  pub provider : ModelProvider F J R E St
  pub capabilities : List Capability
  pub priority : ℕ

unfoldable pub task_capabilities : ModelTask → List Capability
task_capabilities summarization = fast_generation ∷ structured_output ∷ []
task_capabilities claim_extraction = reasoning ∷ structured_output ∷ []
task_capabilities reflection = reasoning ∷ long_context ∷ []
task_capabilities agent_answer = reasoning ∷ []

unfoldable pub satisfies : List Capability → List Capability → Bool
unfolding capability_eq
satisfies provider_caps required = all (λ r. any (λ c. capability_eq c r) provider_caps) required

module _ {F J R E St : Type 0} where
  unfoldable pub register :
      List (ProviderEntry F J R E St)
      → ModelProvider F J R E St
      → List Capability
      → ℕ
      → List (ProviderEntry F J R E St)
  register entries provider capabilities priority =
      entries
      ++ (record { provider = provider; capabilities = capabilities; priority = priority }) ∷ []

  -- The first entry, or the error without one.
  abbrev pub fallback : E → List (ProviderEntry F J R E St) → ModelRequest F J → Mut St E R
  fallback none_registered [] request = fail none_registered
  fallback none_registered (e ∷ es) request = e.provider.generate request

  -- The loop over the entries, with what follows it.
  unfoldable pub first_match :
      List Capability → List (ProviderEntry F J R E St) → ModelRequest F J → Mut St E R → Mut St E R
  unfolding satisfies
  first_match required [] request after = after
  first_match required (e ∷ es) request after =
      let rest = first_match required es request after in
      if satisfies e.capabilities required then e.provider.generate request else rest

  -- `none_registered` is `ModelError::ProviderError("No model providers registered")`.
  unfoldable pub generate : E → List (ProviderEntry F J R E St) → ModelRequest F J → Mut St E R
  unfolding first_match task_capabilities
  generate none_registered entries request =
      first_match (task_capabilities request.task) entries request
        (fallback none_registered entries request)
