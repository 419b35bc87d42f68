-- ===== src/Prelude/Texts.antt =====
-- Texts as bytes: `starts_with`, `bytes()` in UTF-8, and the xor of words.
use Prim.Native.Nat.{ℕ, zero, suc, ◌+◌, ◌*◌, ◌/◌, ◌%◌}
use Prim.Native.Char.{Char, code}
use Prim.Native.String.{String, ◌++◌ as text_append}
use text.Mathlib.TextLemmas.{cons-append}
use mathlib.Core.Path.{◌≡◌, refl}
use native.Mathlib.Omega.{arith}
use mathlib.Core.Bool.{Bool, true, false}
use mathlib.Core.List.{List, [], ◌∷◌, ◌++◌}
use sulix_intelligence.Prelude.Tests.{ltb, ◌==◌, if◌then◌else◌}

-- `text.starts_with(prefix)`
abbrev pub starts_with : String → String → Bool
starts_with text String.[] = true
starts_with String.[] (String.◌∷◌ d prefix) = false
starts_with (String.◌∷◌ c text) (String.◌∷◌ d prefix) =
    let rest = starts_with text prefix in if code c == code d then rest else false

-- The bytes of a code point.
abbrev pub utf8 : ℕ → List ℕ
utf8 c =
    if ltb c 128
    then c ∷ []
    else if ltb c 2048
    then (192 + c / 64) ∷ (128 + c % 64) ∷ []
    else if ltb c 65536
    then (224 + c / 4096) ∷ (128 + c / 64 % 64) ∷ (128 + c % 64) ∷ []
    else (240 + c / 262144) ∷ (128 + c / 4096 % 64) ∷ (128 + c / 64 % 64) ∷ (128 + c % 64) ∷ []

abbrev pub bytes : String → List ℕ
bytes String.[] = []
bytes (String.◌∷◌ c s) = utf8 (code c) ++ bytes s

-- `a ^ b` on as many bits as the fuel says.
abbrev pub xor : ℕ → ℕ → ℕ → ℕ
xor zero a b = 0
xor (suc n) a b = (a % 2 + b % 2) % 2 + 2 * xor n (a / 2) (b / 2)

pub starts_with-append : (p s : String) → starts_with (text_append p s) p ≡ true
starts_with-append String.[] s = refl
starts_with-append (String.◌∷◌ c p) s =
    rw (cons-append c p s) (ground (arith, starts_with-append p s))

-- A text that starts with another character does not start with the prefix.
pub starts_with-other :
    (c d : Char) (r s p : String)
    → (code c == code d) ≡ false
    → starts_with (text_append (String.◌∷◌ c r) s) (String.◌∷◌ d p) ≡ false
starts_with-other c d r s p h = rw (cons-append c r s) (rw h refl)

abbrev prepend : Char → List String → List String
prepend c [] = String.◌∷◌ c "" ∷ []
prepend c (piece ∷ pieces) = String.◌∷◌ c piece ∷ pieces

-- `text.split(separator)` for a character, from its code.
abbrev pub split : ℕ → String → List String
split separator String.[] = "" ∷ []
split separator (String.◌∷◌ c s) =
    let rest = split separator s in if code c == separator then "" ∷ rest else prepend c rest
