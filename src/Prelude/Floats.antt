-- ===== src/Prelude/Floats.antt =====
-- All that the modelled code does with `f64`: a type and its operations, as an instance argument.
use mathlib.Core.Bool.{Bool, ◌&&◌}
use Prim.Native.Nat.{ℕ, ◌+◌, ◌-◌, ◌*◌, ◌/◌}
use sulix_intelligence.Prelude.Tests.{ltb, leb, if◌then◌else◌}

-- `ratio p q` is the literal p / q, and `of_nat` the conversion `as f64`.
pub record Float (F : Type 0) : Type 0 where
  pub le : F → F → Bool
  pub lt : F → F → Bool
  pub ratio : ℕ → ℕ → F
  pub of_nat : ℕ → F
  pub add : F → F → F
  pub sub : F → F → F
  pub mul : F → F → F
  pub div : F → F → F
  pub abs : F → F
  pub min : F → F → F
  pub round : F → F

module _ {F : Type 0} ⦃fl : Float F⦄ where
  -- `(0.0..=1.0).contains(&x)`
  abbrev pub in_unit : F → Bool
  in_unit x = fl.le (fl.ratio 0 1) x && fl.le x (fl.ratio 1 1)

  -- `x.clamp(0.0, 1.0)`
  abbrev pub clamp_unit : F → F
  clamp_unit x =
      if fl.lt x (fl.ratio 0 1)
      then fl.ratio 0 1
      else if fl.lt (fl.ratio 1 1) x
      then fl.ratio 1 1
      else x

-- Thousandths: an instance to run the model with.
instance abbrev pub milli : Float ℕ
milli = record {
  le = leb;
  lt = ltb;
  ratio = λ p q. p * 1000 / q;
  of_nat = λ n. n * 1000;
  add = ◌+◌;
  sub = ◌-◌;
  mul = λ a b. a * b / 1000;
  div = λ a b. a * 1000 / b;
  abs = λ a. a;
  min = λ a b. if ltb b a then b else a;
  round = λ a. (a + 500) / 1000 * 1000;
}
