-- ===== src/Reconcile/Positions/Cash.antt =====
-- When `reconcile_cash` of reconciliation.py finds nothing.
use algo_dollar.Base.{
  ◌≡◌, refl, String, Bool, true, false, ◌&&◌, Option, none, some, List, [], ◌∷◌, ◌++◌, ◌↔◌, All,
  if◌then◌else◌, arith,
}
use algo_dollar.Base.Dict.{has_key}
use algo_dollar.Errors.{Result, ok, err, ◌>>=◌}
use algo_dollar.Double.{Double}
use algo_dollar.Reconcile.Values.{Value, Row, Conversions, field_of, to_float}
use algo_dollar.Reconcile.Found.{each_row, nothing_found}
use algo_dollar.Reconcile.Snapshot.{Snapshot, Tolerances, rows_or, comparable}
use algo_dollar.Reconcile.Positions.{
  cash_tolerance, compare_cash, compare_field, cash_fields, reconcile_cash,
}

-- A step and the rest, which together find nothing.
both_iff :
    {X A R : Type 0} (m n : Result (List X))
    → (m ≡ ok []) ↔ A
    → (n ≡ ok []) ↔ R
    → ((m >>= λ xs. n >>= λ ys. ok (xs ++ ys)) ≡ ok []) ↔ (A × R)
both_iff m n first rest = (
  λ h. let (x, y) = nothing_found m n h in (first.0 x, rest.0 y),
  λ (a, r). rw (first.1 a) (rw (rest.1 r) refl),
)

-- What is done only under a test.
tested_iff :
    {X A : Type 0} (test : Bool) (m : Result (List X))
    → (m ≡ ok []) ↔ A
    → ((if test then m else ok []) ≡ ok []) ↔ (test ≡ true → A)
tested_iff true m step = (λ h _. step.0 h, λ a. step.1 (a refl))
tested_iff false m step = (λ h no_test. cc, λ _. refl)

read_iff :
    {X A : Type 0} (read : Bool) (m : Result (List X)) (x : X)
    → (m ≡ ok []) ↔ A
    → ((if read then m else ok (x ∷ [])) ≡ ok []) ↔ ((read ≡ true) × A)
read_iff true m x fields = (λ h. (refl, fields.0 h), λ (_, a). fields.1 a)
read_iff false m x fields = (λ h. cc, λ (r, _). cc)

module _ {F : Type 0} ⦃d : Double F⦄ where
  -- Two readings are numbers, and the size of their difference does not compare greater than the
  -- tolerance, which is also so where one of them is no number that compares.
  abbrev pub NumbersAgree : Tolerances F → Result (Option F) → Result (Option F) → Type 0
  NumbersAgree tol (ok (some b)) (ok (some l)) =
      d.lt (cash_tolerance tol b) (d.abs (d.sub b l)) ≡ false
  NumbersAgree tol _ _ = ⊥

  compare_read_iff :
      (tol : Tolerances F) (name : String) (bv lv : Value F) (b l : Result (Option F))
      → ((b >>= λ x. l >>= λ y. ok (compare_cash tol name bv lv x y)) ≡ ok [])
        ↔ NumbersAgree tol b l
  unfolding compare_cash
  compare_read_iff tol name bv lv (ok (some b)) (ok (some l)) = ground arith
  compare_read_iff tol name bv lv (ok (some b)) (ok none) = ground arith
  compare_read_iff tol name bv lv (ok none) (ok l) = ground arith
  compare_read_iff tol name bv lv (ok none) (err e) = ground arith
  compare_read_iff tol name bv lv (ok (some b)) (err e) = ground arith
  compare_read_iff tol name bv lv (err e) l = ground arith

module _ {F : Type 0} ⦃d : Double F⦄ (py : Conversions F) where
  -- A field that both sides have.
  abbrev pub FieldAgrees : Tolerances F → (broker local : Row F) → String → Type 0
  FieldAgrees tol b l name =
      (has_key name b && has_key name l) ≡ true
      → NumbersAgree tol (to_float py (field_of b name)) (to_float py (field_of l name))

  compare_fields_iff :
      (tol : Tolerances F) (b l : Row F) (names : List String)
      → (each_row (compare_field py tol b l) names ≡ ok []) ↔ All (FieldAgrees tol b l) names
  unfolding compare_field each_row
  compare_fields_iff tol b l [] = ground arith
  compare_fields_iff tol b l (name ∷ names) =
      both_iff (compare_field py tol b l name) _
        (tested_iff (has_key name b && has_key name l) _ (
          compare_read_iff tol name (field_of b name) (field_of l name)
            (to_float py (field_of b name)) (to_float py (field_of l name))))
        (compare_fields_iff tol b l names)

  -- `reconcile_cash` finds nothing, and raises nothing, exactly if the funds of both sides were read
  -- and, of each field that both have, the two values are numbers whose difference does not compare
  -- greater than the tolerance.
  pub reconcile_cash_iff :
      (tol : Tolerances F) (snap : Snapshot F)
      → (reconcile_cash py tol snap ≡ ok []) ↔ (
          (comparable "broker_cash" "local_cash" snap ≡ true)
          × All (FieldAgrees tol (rows_or snap.broker_cash) (rows_or snap.local_cash)) cash_fields)
  unfolding reconcile_cash
  reconcile_cash_iff tol snap =
      let fields =
        compare_fields_iff tol (rows_or snap.broker_cash) (rows_or snap.local_cash) cash_fields in
      read_iff (comparable "broker_cash" "local_cash" snap) _ _ fields
