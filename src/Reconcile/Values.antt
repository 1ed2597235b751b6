-- ===== src/Reconcile/Values.antt =====
-- The dicts that reconciliation.py reads, and its conversions of their values (`_to_float`,
-- `_float_of`, `_int_of`, `_symbol_of`). A row is a dict with values of any type.
use algo_dollar.Base.{
  ℕ, String, Bool, true, false, not, Option, none, some, List, [], ℤ, pos, eq_ℤ, is_nonempty, codes,
  strip, upper, if◌then◌else◌,
}
use algo_dollar.Base.Dict.{Dict, lookup}
use algo_dollar.Errors.{Result, ok, err, other, ◌>>=◌}
use algo_dollar.Double.{Double, is_truthy, or_nought, nought}

-- A value of a dict; `object` is any other, which is true and no number.
pub data Value (F : Type 0) : Type 0 where
  null object : Value F
  text : String → Value F
  int : ℤ → Value F
  float : F → Value F
  bool : Bool → Value F

abbrev pub Row : Type 0 → Type 0
Row F = Dict (Value F)

-- Python's conversions between texts and numbers.
pub record Conversions (F : Type 0) : Type 0 where
  -- `float(s)`; `none` is the `ValueError`
  pub parse_float : String → Option F
  -- `float(n)` of an int, which raises `OverflowError` beyond a float's range
  pub of_int : ℤ → Result F
  -- `int(x)`, which raises for NaN and the infinities
  pub whole : F → Result ℤ
  -- `str(v)` of a value that is no text
  pub text_of_other : Value F → String

abbrev value_or_null : {F : Type 0} → Option (Value F) → Value F
value_or_null none = null
value_or_null (some v) = v

module _ {F : Type 0} where
  -- `row.get(key)`
  unfoldable pub field_of : Row F → String → Value F
  field_of row key = value_or_null (lookup key row)

module _ {F : Type 0} ⦃d : Double F⦄ where
  -- `bool(v)`
  abbrev pub is_true : Value F → Bool
  is_true null = false
  is_true object = true
  is_true (text s) = is_nonempty s
  is_true (int n) = not (eq_ℤ n (pos 0))
  is_true (float x) = is_truthy x
  is_true (bool b) = b

  -- `v or w`
  abbrev pub or_value : Value F → Value F → Value F
  or_value v w = if is_true v then v else w

  -- `(status or "").strip().upper()`, in code points; a true value that is no text has no `strip`.
  unfoldable pub status_of : Value F → Result (List ℕ)
  status_of (text s) = ok (upper (strip (codes s)))
  status_of v = if is_true v then err (other "no attribute 'strip'") else ok (upper (strip []))

module _ {F : Type 0} ⦃d : Double F⦄ (py : Conversions F) where
  -- `str(v)`
  abbrev pub text_of : Value F → String
  text_of (text s) = s
  text_of v = py.text_of_other v

  -- `_to_float`, which catches `TypeError` and `ValueError` but not `OverflowError`
  unfoldable pub to_float : Value F → Result (Option F)
  to_float null = ok none
  to_float object = ok none
  to_float (text s) = ok (py.parse_float s)
  to_float (int n) = py.of_int n >>= λ x. ok (some x)
  to_float (float x) = ok (some x)
  to_float (bool b) = ok none

  abbrev pub float_or : Option F → F
  float_or none = nought
  float_or (some x) = or_nought x

  abbrev pub whole_or : Option F → Result ℤ
  whole_or none = ok (pos 0)
  whole_or (some x) = py.whole x

  -- `int(float(n))` of an int
  abbrev pub through_float : ℤ → Result ℤ
  through_float n = py.of_int n >>= py.whole

  unfoldable pub float_of : Row F → String → Result F
  unfolding to_float field_of
  float_of row key = to_float (field_of row key) >>= λ x. ok (float_or x)

  unfoldable pub int_of : Row F → String → Result ℤ
  unfolding to_float field_of
  int_of row key = to_float (field_of row key) >>= whole_or

  unfoldable pub symbol_of : Row F → String
  unfolding field_of
  symbol_of row =
      text_of (or_value (field_of row "tradingsymbol") (or_value (field_of row "symbol") (text "")))
