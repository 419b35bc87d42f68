-- ===== src/Reflection/Messages.antt =====
-- crates/intelligence/reflection-engine/src/validation.rs: the texts of the errors.
use Prim.Native.String.{String, ◌++◌, len}
use sulix_intelligence.Prelude.{ℕ}
use sulix_intelligence.Prelude.Decimal.{padded}
use sulix_intelligence.Reflection.Ports.{Texts}

-- `format!("{what} {i}: {why}")`
abbrev pub about : String → ℕ → String → String
about what i why = what ++ " " ++ padded 1 i ++ ": " ++ why

abbrev pub invalid_result : String → String
invalid_result result = "invalid result: " ++ result

abbrev pub too_short : String → String
too_short description = "description too short (" ++ padded 1 (len description) ++ " chars)"

abbrev pub out_of_range : {F : Type 0} → Texts F → F → String
out_of_range texts confidence = "confidence out of range [0,1]: " ++ texts.display confidence
