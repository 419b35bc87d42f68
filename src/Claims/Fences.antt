-- ===== src/Claims/Fences.antt =====
-- crates/claim-engine/src/parser.rs, `strip_markdown_fences`: a response whose fence is not closed.
use Prim.Native.String.{String}
use sulix_intelligence.Prelude.{
  Float, ℕ, ◌≤◌, ◌≡◌, refl, arith, none, some, starts_with, Option-cases, Bool-cases, true, inl,
  inr,
}
use sulix_intelligence.Claims.Parser.{
  ClaimTexts, find_newline, rfind, text_drop, slice, content_start, strip_markdown_fences,
  parse_claims_from_response,
}

-- The last position of a fence in a text that starts with one and has no other after it.
rfind-unclosed :
    (text : String)
    → starts_with text "```" ≡ true
    → rfind "```" (text_drop 3 text) ≡ none
    → (n : ℕ) × (rfind "```" text ≡ some n) × (n ≤ 2)
rfind-unclosed String.[] h k = cc
rfind-unclosed (String.◌∷◌ a String.[]) h k = ground arith
rfind-unclosed (String.◌∷◌ a (String.◌∷◌ b String.[])) h k = ground arith
rfind-unclosed (String.◌∷◌ a (String.◌∷◌ b (String.◌∷◌ c body))) h k =
    rw (k) (elim (Bool-cases (starts_with (String.◌∷◌ c body) "```")) [
      | inl third ↦ rw third (2, refl, omega arith)
      | inr other ↦
          rw other (elim (Bool-cases (starts_with (String.◌∷◌ b (String.◌∷◌ c body)) "```")) [
            | inl second ↦ rw second (1, refl, omega arith)
            | inr later ↦ rw later (rw h (0, refl, omega arith))
          ])
    ])

content_start-fence :
    (text : String) → starts_with text "```" ≡ true → 3 ≤ content_start (find_newline text)
content_start-fence String.[] h = cc
content_start-fence (String.◌∷◌ a String.[]) h = ground arith
content_start-fence (String.◌∷◌ a (String.◌∷◌ b String.[])) h = ground arith
content_start-fence (String.◌∷◌ a (String.◌∷◌ b (String.◌∷◌ c body))) h =
    elim (Option-cases (find_newline body)) [
      | inl none_left ↦ rw none_left (ground arith)
      | inr (n, found) ↦ rw found (ground arith)
    ]

slice-empty : (start end : ℕ) (text : String) → 3 ≤ start → end ≤ 2 → slice start end text ≡ none
slice-empty start end text h k = ground arith

-- A response that is trimmed to a text with a fence at its start and no fence after it, such as a response that was cut
-- off, makes the parser panic.
pub parse_claims_from_response-unclosed :
    {F : Type 0} ⦃fl : Float F⦄ (texts : ClaimTexts F) (response : String)
    → starts_with (texts.trim response) "```" ≡ true
    → rfind "```" (text_drop 3 (texts.trim response)) ≡ none
    → parse_claims_from_response texts response ≡ none
unfolding parse_claims_from_response strip_markdown_fences
parse_claims_from_response-unclosed texts response h k =
    let text = texts.trim response in
    let (n, last, small) = rfind-unclosed text h k in
    rw h (
      rw last (
        rw
          (slice-empty (content_start (find_newline text)) n text (content_start-fence text h)
            small)
          refl))
