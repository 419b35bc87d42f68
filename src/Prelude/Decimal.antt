-- ===== src/Prelude/Decimal.antt =====
-- Rust's `{:06}` of an i64 and `parse::<i64>`, over native texts.
use Prim.Native.Nat.{ℕ, zero, suc, ◌+◌, ◌-◌, ◌*◌, ◌/◌, ◌%◌, ◌^◌, ◌≤◌, ◌<◌}
use Prim.Native.Char.{Char, code}
use Prim.Native.String.{String}
use mathlib.Core.Path.{◌≡◌, refl, ◌∙◌, ap}
use mathlib.Core.Bool.{true, false, ◌&&◌, ◌||◌}
use mathlib.Core.Option.{Option, none, some}
use mathlib.Core.Logic.{inl, inr}
use native.Mathlib.Nat.{pow-suc}
use native.Mathlib.Omega.{arith}
use sulix_intelligence.Prelude.Tests.{Bool-cases, ltb, leb, ◌==◌, if◌then◌else◌}
use sulix_intelligence.Prelude.Word.{I64}

digit : ℕ → Char
digit zero = "0"
digit (suc zero) = "1"
digit (suc (suc zero)) = "2"
digit (suc (suc (suc zero))) = "3"
digit (suc (suc (suc (suc zero)))) = "4"
digit (suc (suc (suc (suc (suc zero))))) = "5"
digit (suc (suc (suc (suc (suc (suc zero)))))) = "6"
digit (suc (suc (suc (suc (suc (suc (suc zero))))))) = "7"
digit (suc (suc (suc (suc (suc (suc (suc (suc zero)))))))) = "8"
digit (suc (suc (suc (suc (suc (suc (suc (suc (suc n))))))))) = "9"

-- The decimal digits of `n`, at least `w` of them, in front of `out`; the fuel bounds their number.
emit : ℕ → ℕ → ℕ → String → String
emit zero w n out = out
emit (suc fuel) w n out =
    let more = emit fuel (w - 1) (n / 10) (String.◌∷◌ (digit (n % 10)) out) in
    if n == 0 && w == 0 then out else more

-- `{:0w}` of an i64: the sign counts towards the width. Twenty digits are enough for 2 ^ 64.
unfoldable pub padded : ℕ → I64 → String
unfolding emit digit
padded w n =
    if ltb n (2 ^ 63) then emit 20 w n "" else String.◌∷◌ "-" (emit 20 (w - 1) (2 ^ 64 - n) "")

scan : String → ℕ → Option ℕ
scan String.[] n = some n
scan (String.◌∷◌ c s) n =
    let rest = scan s (n * 10 + (code c - b'0')) in
    if ltb (code c) b'0' || ltb b'9' (code c) then none else rest

-- One digit or more.
digits_of : String → Option ℕ
digits_of String.[] = none
digits_of (String.◌∷◌ c s) = scan (String.◌∷◌ c s) 0

positive : Option ℕ → Option I64
positive none = none
positive (some v) = if ltb v (2 ^ 63) then some v else none

negative : Option ℕ → Option I64
negative none = none
negative (some v) = if leb v (2 ^ 63) then some ((2 ^ 64 - v) % 2 ^ 64) else none

-- `str::parse::<i64>`: an optional sign, then digits, refused on overflow.
unfoldable pub parse_i64 : String → Option I64
unfolding scan digits_of positive negative
parse_i64 String.[] = none
parse_i64 (String.◌∷◌ c s) =
    if code c == b'-'
    then negative (digits_of s)
    else if code c == b'+'
    then positive (digits_of s)
    else positive (digits_of (String.◌∷◌ c s))

code-digit : (d : ℕ) → d < 10 → code (digit d) ≡ b'0' + d
unfolding digit
code-digit zero h = refl
code-digit (suc zero) h = refl
code-digit (suc (suc zero)) h = refl
code-digit (suc (suc (suc zero))) h = refl
code-digit (suc (suc (suc (suc zero)))) h = refl
code-digit (suc (suc (suc (suc (suc zero))))) h = refl
code-digit (suc (suc (suc (suc (suc (suc zero)))))) h = refl
code-digit (suc (suc (suc (suc (suc (suc (suc zero))))))) h = refl
code-digit (suc (suc (suc (suc (suc (suc (suc (suc zero)))))))) h = refl
code-digit (suc (suc (suc (suc (suc (suc (suc (suc (suc zero))))))))) h = refl
code-digit (suc (suc (suc (suc (suc (suc (suc (suc (suc (suc n)))))))))) h = absurd (omega arith)

-- Reading the last digit behind the digits before it gives the number.
scan-digit : (n : ℕ) (out : String) → scan (String.◌∷◌ (digit (n % 10)) out) (n / 10) ≡ scan out n
unfolding scan
scan-digit n out = ground (arith, code-digit (n % 10))

tenth : (fuel n : ℕ) → n < 10 ^ suc fuel → n / 10 < 10 ^ fuel
tenth fuel n h = let e = pow-suc 10 fuel in omega arith

scan-emit :
    (fuel w n : ℕ) (out : String)
    → n < 10 ^ fuel
    → w ≤ fuel
    → scan (emit fuel w n out) 0 ≡ scan out n
unfolding emit
scan-emit zero w n out h k = ap (scan out) (omega arith)
scan-emit (suc fuel) w n out h k = elim (Bool-cases (n == 0 && w == 0)) [
  | inl done ↦ rw done (ap (scan out) (ground arith))
  | inr more ↦
      rw more (scan-emit fuel (w - 1) (n / 10) _ (tenth fuel n h) (omega arith) ∙ scan-digit n out)
]

-- Every text that `emit` makes begins with a digit.
abbrev Leads : String → Type 0
Leads String.[] = ⊥
Leads (String.◌∷◌ c s) = (b'0' ≤ code c) × (code c ≤ b'9')

Leads-digit : (n : ℕ) (out : String) → Leads (String.◌∷◌ (digit (n % 10)) out)
Leads-digit n out = omega (arith, code-digit (n % 10) (omega arith))

Leads-emit : (fuel w n : ℕ) (out : String) → Leads out → Leads (emit fuel w n out)
unfolding emit
Leads-emit zero w n out h = h
Leads-emit (suc fuel) w n out h = elim (Bool-cases (n == 0 && w == 0)) [
  | inl done ↦ rw done h
  | inr more ↦ rw more (Leads-emit fuel (w - 1) (n / 10) _ (Leads-digit n out))
]

Leads-emit-suc : (fuel w n : ℕ) → 0 < w → Leads (emit (suc fuel) w n "")
unfolding emit
Leads-emit-suc fuel w n h = elim (Bool-cases (n == 0 && w == 0)) [
  | inl done ↦ absurd (ground arith)
  | inr more ↦ rw more (Leads-emit fuel (w - 1) (n / 10) _ (Leads-digit n ""))
]

-- A text that leads with a digit has no sign.
parse_i64-Leads : (s : String) → Leads s → parse_i64 s ≡ positive (scan s 0)
unfolding parse_i64
parse_i64-Leads String.[] h = absurd h
parse_i64-Leads (String.◌∷◌ c s) h = ground arith

digits_of-Leads : (s : String) → Leads s → digits_of s ≡ scan s 0
unfolding digits_of
digits_of-Leads String.[] h = absurd h
digits_of-Leads (String.◌∷◌ c s) h = refl

scan-emit_all : (w n : ℕ) → n < 10 ^ 20 → w ≤ 20 → scan (emit 20 w n "") 0 ≡ some n
unfolding scan
scan-emit_all w n h k = scan-emit 20 w n "" h k

positive-some : (n : ℕ) → ltb n (2 ^ 63) ≡ true → positive (some n) ≡ some n
unfolding positive
positive-some n h = rw h

negative-some :
    (n : ℕ) → ltb n (2 ^ 63) ≡ false → n < 2 ^ 64 → negative (some (2 ^ 64 - n)) ≡ some n
unfolding negative
negative-some n h k = ground arith

parse_i64-minus : (s : String) → parse_i64 (String.◌∷◌ "-" s) ≡ negative (digits_of s)
unfolding parse_i64
parse_i64-minus s = refl

-- What is printed with a width from 2 to 20 is read back.
pub parse_i64-padded :
    (w : ℕ) (n : I64) → 1 < w → w ≤ 20 → n < 2 ^ 64 → parse_i64 (padded w n) ≡ some n
unfolding padded
parse_i64-padded w n lo hi h = elim (Bool-cases (ltb n (2 ^ 63))) [
  | inl plus ↦ rw plus (plus_case plus)
  | inr minus ↦ rw minus (minus_case minus)
]
  where
    plus_case : ltb n (2 ^ 63) ≡ true → parse_i64 (emit 20 w n "") ≡ some n
    plus_case e =
        parse_i64-Leads _ (Leads-emit-suc 19 w n (omega arith))
        ∙ ap positive (scan-emit_all w n (omega arith) hi)
        ∙ positive-some n e

    minus_case :
        ltb n (2 ^ 63) ≡ false
        → parse_i64 (String.◌∷◌ "-" (emit 20 (w - 1) (2 ^ 64 - n) "")) ≡ some n
    minus_case e =
        parse_i64-minus _
        ∙ ap negative (
            digits_of-Leads _ (Leads-emit-suc 19 (w - 1) (2 ^ 64 - n) (omega arith))
            ∙ scan-emit_all (w - 1) (2 ^ 64 - n) (omega arith) (omega arith))
        ∙ negative-some n e h
