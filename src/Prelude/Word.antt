-- ===== src/Prelude/Word.antt =====
-- Machine integers. An `i64` is its two's-complement bit pattern, a number below 2 ^ 64; so equality of
-- patterns is equality of integers, and the patterns from 2 ^ 63 on are the negative ones.
use Prim.Native.Nat.{ℕ, ◌+◌, ◌-◌, ◌%◌, ◌^◌, ◌<◌}
use mathlib.Core.Path.{◌≡◌}
use mathlib.Core.Bool.{Bool, ◌&&◌}
use native.Mathlib.Omega.{arith}
use sulix_intelligence.Prelude.Tests.{ltb}

abbrev pub I64 : Type 0
I64 = ℕ

-- A release build wraps.
abbrev pub add_i64 : I64 → I64 → I64
add_i64 a b = (a + b) % 2 ^ 64

abbrev pub sub_i64 : I64 → I64 → I64
sub_i64 a b = (a + (2 ^ 64 - b)) % 2 ^ 64

-- `0 < a` and `a < b` as signed integers: adding 2 ^ 63 turns the signed order into the order of the patterns.
abbrev pub is_positive : I64 → Bool
is_positive a = ltb 0 a && ltb a (2 ^ 63)

abbrev pub lt_i64 : I64 → I64 → Bool
lt_i64 a b = ltb ((a + 2 ^ 63) % 2 ^ 64) ((b + 2 ^ 63) % 2 ^ 64)

-- Below the largest pattern a counter does not wrap.
pub add_i64-one : (a : I64) → a < 2 ^ 64 - 1 → add_i64 a 1 ≡ a + 1
add_i64-one a h = omega arith
