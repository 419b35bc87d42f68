-- ===== src/Tests/Reasoning.antt =====
-- Frameworks in a table, and an outcome with three impacts.
use Prim.Native.String.{String}
use sulix_intelligence.Prelude.{
  ℕ, ◌+◌, ◌%◌, ◌^◌, ◌≡◌, refl, arith, List, [], ◌∷◌, Option, none, some, true, ok, str_eq, milli,
  if◌then◌else◌, ◌↔◌,
}
use sulix_intelligence.Reasoning.{
  TriggerRule, matches, ReasoningFramework, FrameworkImpact, FrameworkRepository,
  financial_intelligence,
}
use sulix_intelligence.Reasoning.Triggers.{Fires, matches-Fires}
use sulix_intelligence.Reasoning.Calibration.{record_outcome}
use sulix_intelligence.Reasoning.Learning.{
  mapped, learned_from, uses, IsTable, record_outcome-learned_from, record_outcome-usage_count,
}

-- The repository whose state is a function from ids to frameworks.
abbrev Table : Type 0
Table = String → Option (ReasoningFramework ℕ)

abbrev table : FrameworkRepository ℕ Table
table = record {
  find = λ id s. (ok (s id), s);
  list_by_category = λ c s. (ok [], s);
  list_all = λ s. (ok [], s);
  search = λ q s. (ok [], s);
  seed = λ fs s. (ok tt, s);
  update_calibration = λ id c n d s. (
    ok tt,
    λ j.
        if str_eq id j
        then mapped
            (λ fw. record fw { calibration_score = c; usage_count = n; confidence_delta_avg = d })
            (s j)
        else s j,
  );
}

abbrev table-IsTable : IsTable table (λ s. s)
table-IsTable = record {
  find_held = λ id s. refl;
  update_ok = λ id c n d s. refl;
  update_held = λ id c n d s j. refl;
}

abbrev growth_rule : TriggerRule
growth_rule = record {
  signal_type = none;
  entity_type = some "company";
  question_type = none;
  keywords = "Compound" ∷ [];
}

abbrev compound : ReasoningFramework ℕ
compound = record {
  id = "compound";
  name = "Compound Growth";
  category = financial_intelligence;
  description = "";
  trigger_rules = growth_rule ∷ [];
  reasoning_template = "";
  evidence_requirements = [];
  calibration_score = 500;
  usage_count = 4;
  confidence_delta_avg = 100;
}

abbrev known : Table
known id = if str_eq id "compound" then some compound else none

abbrev impact : String → FrameworkImpact ℕ
impact id = record {
  framework_id = id;
  claim_id = 1;
  confidence_before = 700;
  confidence_after = 820;
  delta = 120;
}

abbrev impacts : List (FrameworkImpact ℕ)
impacts = impact "compound" ∷ impact "unknown" ∷ impact "compound" ∷ []

matches_run : matches growth_rule none (some "company") none ("compound" ∷ []) ≡ true
unfolding matches
matches_run = refl

matches-Fires_example :
    (matches growth_rule none (some "company") none ("compound" ∷ []) ≡ true)
    ↔ Fires growth_rule none (some "company") none ("compound" ∷ [])
matches-Fires_example = matches-Fires growth_rule none (some "company") none ("compound" ∷ [])

record_outcome-learned_from_example :
    ((record_outcome table true impacts known).0 ≡ ok tt)
    × ((id : String)
        → (record_outcome table true impacts known).1 id
          ≡ mapped (learned_from true id impacts) (known id))
record_outcome-learned_from_example =
    record_outcome-learned_from table (λ s. s) table-IsTable true impacts known

record_outcome-usage_count_example :
    (fw' : ReasoningFramework ℕ) × ((record_outcome table true impacts known).1 "compound"
      ≡ some fw')
    × (fw'.usage_count ≡ (4 + uses "compound" impacts) % 2 ^ 64)
record_outcome-usage_count_example =
    record_outcome-usage_count table (λ s. s) table-IsTable true impacts known "compound" compound
      refl (omega arith)
