-- ===== src/Tests/Models.antt =====
-- Routing between two concrete providers.
use Prim.Native.String.{String}
use sulix_intelligence.Prelude.{ℕ, ◌≡◌, refl, List, [], ◌∷◌, map, none, true, ok}
use sulix_intelligence.ModelRuntime.{
  ModelRequest, ModelProvider, ProviderEntry, Capability, reasoning, low_cost, agent_answer,
  generate,
}
use sulix_intelligence.ModelRuntime.Laws.{
  Goes, with_priority, generate-Goes, generate-with_priority,
}

abbrev named : String → ModelProvider ℕ String String String ℕ
named name = record {
  capabilities = record {
    provider = name;
    model_name = name;
    context_window = 8000;
    supports_json = true;
  };
  generate = λ request s. (ok name, s);
}

abbrev entry : String → List Capability → ℕ → ProviderEntry ℕ String String String ℕ
entry name capabilities priority = record {
  provider = named name;
  capabilities = capabilities;
  priority = priority;
}

abbrev entries : List (ProviderEntry ℕ String String String ℕ)
entries = entry "cheap" (low_cost ∷ []) 1 ∷ entry "deep" (reasoning ∷ low_cost ∷ []) 9 ∷ []

abbrev question : ModelRequest ℕ String
question = record {
  task = agent_answer;
  system_prompt = "Answer";
  context = [];
  output_schema = none;
  parameters = record { temperature = 300; max_tokens = 2048 };
}

generate-deep : generate "none" entries question 0 ≡ (ok "deep", 0)
unfolding generate
generate-deep = refl

generate-Goes_example : Goes "none" entries question (generate "none" entries question)
generate-Goes_example = generate-Goes "none" entries question

generate-with_priority_example :
    generate "none" (map (with_priority (λ e. 0)) entries) question
    ≡ generate "none" entries question
generate-with_priority_example = generate-with_priority (λ e. 0) "none" entries question
