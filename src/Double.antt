-- ===== src/Double.antt =====
-- Python's `float`: what the code does with prices and amounts. The operations are a parameter, so
-- that no rounding rule is assumed; a theorem that needs a law of them names it as a hypothesis.
use Prim.Native.Nat.{◌/◌}
use algo_dollar.Base.{
  ℕ, ◌+◌, ◌*◌, Bool, true, false, not, Option, none, some, ℤ, pos, ◌+ℤ◌, ◌-ℤ◌, pos_part, neg_part,
  sub_ℕ, ltb_ℤ, leb_ℤ, eq_ℤ, abs_ℤ, if◌then◌else◌,
}

pub record Double (F : Type 0) : Type 0 where
  -- `float(n)` of an `int`
  pub of_ℤ : ℤ → F
  -- a literal, in ten-millionths: 0.0003 is `literal 3000`
  pub literal : ℕ → F
  -- `round(x, 4)`
  pub round4 : F → F
  pub add : F → F → F
  pub sub : F → F → F
  pub mul : F → F → F
  pub div : F → F → F
  pub abs : F → F
  pub lt : F → F → Bool
  pub le : F → F → Bool
  pub eq : F → F → Bool
  -- `float(n) == n`: the whole number is one that a float can hold.
  pub is_exact : ℤ → Bool
  -- `math.isfinite`
  pub is_finite : F → Bool

module _ {F : Type 0} ⦃d : Double F⦄ where
  abbrev pub nought : F
  nought = d.of_ℤ (pos 0)

  -- `min` and `max` of two values, which return the first unless the second is strictly past it
  abbrev pub min_double : F → F → F
  min_double a b = if d.lt b a then b else a

  abbrev pub max_double : F → F → F
  max_double a b = if d.lt a b then b else a

  -- `bool(x)`
  abbrev pub is_truthy : F → Bool
  is_truthy x = not (d.eq x nought)

  -- `x or 0.0`: a NaN is truthy, and a zero gives the literal zero.
  abbrev pub or_nought : F → F
  or_nought x = if is_truthy x then x else nought

-- A value of the interface: whole units, with `none` for what is not finite.
abbrev pub Units : Type 0
Units = Option ℤ

abbrev pub lift_two : (ℤ → ℤ → ℤ) → Units → Units → Units
lift_two f (some a) (some b) = some (f a b)
lift_two f _ _ = none

abbrev pub test_two : (ℤ → ℤ → Bool) → Units → Units → Bool
test_two f (some a) (some b) = f a b
test_two f _ _ = false

abbrev pub mul_units : ℤ → ℤ → ℤ
mul_units a b =
    sub_ℕ (pos_part a * pos_part b + neg_part a * neg_part b)
      (pos_part a * neg_part b + neg_part a * pos_part b)

abbrev pub div_units : ℤ → ℤ → ℤ
div_units a b = sub_ℕ (pos_part a / pos_part b) (neg_part a / pos_part b)

abbrev pub is_some_unit : Units → Bool
is_some_unit (some _) = true
is_some_unit none = false

abbrev pub abs_unit : Units → Units
abs_unit (some a) = some (abs_ℤ a)
abs_unit none = none

instance unfoldable pub units_double : Double Units
unfolding ◌+ℤ◌ ◌-ℤ◌
units_double = record {
  of_ℤ = λ n. some n;
  literal = λ n. some (pos (n / 10_000_000));
  round4 = λ x. x;
  add = lift_two ◌+ℤ◌;
  sub = lift_two ◌-ℤ◌;
  mul = lift_two mul_units;
  div = lift_two div_units;
  abs = abs_unit;
  lt = test_two ltb_ℤ;
  le = test_two leb_ℤ;
  eq = test_two eq_ℤ;
  is_exact = λ n. true;
  is_finite = is_some_unit;
}
