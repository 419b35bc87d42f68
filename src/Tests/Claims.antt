-- ===== src/Tests/Claims.antt =====
-- Responses of a model: one in fences, and one that was cut off.
use sulix_intelligence.Prelude.{ℕ, ◌≡◌, refl, none, some, err, milli}
use sulix_intelligence.Claims.Parser.{ClaimTexts, strip_markdown_fences, parse_claims_from_response}
use sulix_intelligence.Claims.Fences.{parse_claims_from_response-unclosed}

-- A deserializer that reads no text, and texts without blanks around them.
abbrev texts : ClaimTexts ℕ
texts = record { trim = λ s. s; lowercase = λ s. s; from_json = λ s. err "EOF" }

strip_run : strip_markdown_fences texts.trim "```json\n{}```" ≡ some "{}"
unfolding strip_markdown_fences
strip_run = refl

parse_run :
    parse_claims_from_response texts "{}" ≡ some (err "Failed to parse LLM claim output: EOF")
unfolding parse_claims_from_response strip_markdown_fences
parse_run = refl

parse_claims_from_response-unclosed_example :
    parse_claims_from_response texts "```json\n{\"claims\": [" ≡ none
parse_claims_from_response-unclosed_example =
    parse_claims_from_response-unclosed texts "```json\n{\"claims\": [" refl refl
