-- ===== src/Claims/Parser.antt =====
-- crates/claim-engine/src/parser.rs. A slice whose start is after its end panics, which is `none` here; a position in a
-- text counts characters where the source counts bytes, and a slice between two found positions is the same.
use Prim.Native.String.{String, ◌++◌ as text_append}
use Prim.Native.Char.{code}
use sulix_intelligence.Prelude.{
  ℕ, zero, suc, ◌+◌, ◌-◌, I64, List, [], ◌∷◌, map, Option, none, some, ok, err, Result, ◌==◌, leb,
  str_eq, starts_with, if◌then◌else◌, Float,
}
use sulix_intelligence.Claims.{
  ClaimType, fact, trend, prediction, causal, opinion, Uncertainty, low, medium, high,
  ClaimCandidate, LlmClaimItem, LlmClaimOutput,
}

-- The standard library's `trim` and `to_lowercase`, and serde_json.
pub record ClaimTexts (F : Type 0) : Type 0 where
  pub trim : String → String
  pub lowercase : String → String
  pub from_json : String → Result String (LlmClaimOutput F)

abbrev shifted : Option ℕ → Option ℕ
shifted none = none
shifted (some n) = some (suc n)

-- `text.find('\n')`
abbrev pub find_newline : String → Option ℕ
find_newline String.[] = none
find_newline (String.◌∷◌ c s) =
    let rest = shifted (find_newline s) in if code c == 10 then some 0 else rest

-- `text.rfind(pattern)` for a pattern that is not empty.
abbrev pub rfind : String → String → Option ℕ
rfind pattern String.[] = none
rfind pattern (String.◌∷◌ c s) =
    let here = if starts_with (String.◌∷◌ c s) pattern then some 0 else none in
    elim (rfind pattern s) [ none ↦ here | some n ↦ some (suc n) ]

abbrev pub text_drop : ℕ → String → String
text_drop zero s = s
text_drop (suc n) String.[] = ""
text_drop (suc n) (String.◌∷◌ c s) = text_drop n s

abbrev pub text_take : ℕ → String → String
text_take zero s = ""
text_take (suc n) String.[] = ""
text_take (suc n) (String.◌∷◌ c s) = String.◌∷◌ c (text_take n s)

-- `&text[start..end]`
abbrev pub slice : ℕ → ℕ → String → Option String
slice start end text =
    if leb start end then some (text_take (end - start) (text_drop start text)) else none

abbrev pub content_start : Option ℕ → ℕ
content_start none = 3
content_start (some i) = i + 1

abbrev pub trimmed : (String → String) → Option String → Option String
trimmed trim none = none
trimmed trim (some s) = some (trim s)

-- The text between the fences, by the position of the last one.
abbrev pub fenced : (String → String) → String → Option ℕ → Option String
fenced trim text none = some text
fenced trim text (some end) = trimmed trim (slice (content_start (find_newline text)) end text)

unfoldable pub strip_markdown_fences : (String → String) → String → Option String
strip_markdown_fences trim input =
    let text = trim input in
    if starts_with text "```" then fenced trim text (rfind "```" text) else some text

-- `s` is trimmed and in lower case.
abbrev pub claim_type_of : String → Result String ClaimType
claim_type_of s =
    if str_eq s "fact"
    then ok fact
    else if str_eq s "trend"
    then ok trend
    else if str_eq s "prediction"
    then ok prediction
    else if str_eq s "causal"
    then ok causal
    else if str_eq s "opinion"
    then ok opinion
    else err (text_append "Unknown claim type: " s)

abbrev pub uncertainty_of : String → Result String Uncertainty
uncertainty_of s =
    if str_eq s "low"
    then ok low
    else if str_eq s "medium"
    then ok medium
    else if str_eq s "high"
    then ok high
    else err (text_append "Unknown uncertainty: " s)

abbrev and_then_ok : {A B : Type 0} → Result String A → (A → Result String B) → Result String B
and_then_ok (ok a) f = f a
and_then_ok (err e) f = err e

module _ {F : Type 0} ⦃fl : Float F⦄ (texts : ClaimTexts F) where
  unfoldable pub parse_claim_type : String → Result String ClaimType
  parse_claim_type s = claim_type_of (texts.lowercase (texts.trim s))

  unfoldable pub parse_uncertainty : String → Result String Uncertainty
  parse_uncertainty s = uncertainty_of (texts.lowercase (texts.trim s))

  abbrev pub candidate : LlmClaimItem F → Result String (ClaimCandidate F)
  unfolding parse_claim_type parse_uncertainty
  candidate item = and_then_ok (parse_claim_type item.claim_type) (λ claim_type.
      and_then_ok (parse_uncertainty item.uncertainty) (λ uncertainty. ok (record {
        statement = item.statement;
        claim_type = claim_type;
        reasoning = item.reasoning;
        falsification = item.falsification;
        evidence_refs =
            map (λ (id : I64). record { article_id = id; relevance = fl.ratio 1 1 })
              item.evidence_article_ids;
        counter_arguments = item.counter_arguments;
        frameworks_applied = item.frameworks_applied;
        uncertainty = uncertainty;
      })))

  -- The loop over the items: the first error ends it.
  abbrev pub candidates : List (LlmClaimItem F) → Result String (List (ClaimCandidate F))
  candidates [] = ok []
  candidates (item ∷ items) =
      let rest = candidates items in
      and_then_ok (candidate item) (λ claim. and_then_ok rest (λ claims. ok (claim ∷ claims)))

  abbrev pub claims_of : Result String (LlmClaimOutput F) → Result String (List (ClaimCandidate F))
  claims_of (ok output) = candidates output.claims
  claims_of (err e) = err (text_append "Failed to parse LLM claim output: " e)

  abbrev pub parsed : Option String → Option (Result String (List (ClaimCandidate F)))
  parsed none = none
  parsed (some cleaned) = some (claims_of (texts.from_json cleaned))

  unfoldable pub parse_claims_from_response :
      String → Option (Result String (List (ClaimCandidate F)))
  unfolding strip_markdown_fences
  parse_claims_from_response response = parsed (strip_markdown_fences texts.trim response)
