-- ===== src/Reconcile/Snapshot.antt =====
-- `ReconciliationSnapshot` of reconciliation.py, the tolerances, and the tests that all comparisons share.
use algo_dollar.Base.{
  String, Bool, true, false, not, ◌&&◌, ◌||◌, Option, none, some, List, [], ℤ, ◌-ℤ◌, ltb_ℤ, abs_ℤ,
  if◌then◌else◌,
}
use algo_dollar.Base.Member.{contains}
use algo_dollar.Double.{Double, nought, max_double}
use algo_dollar.Reconcile.Values.{Row}
use algo_dollar.Reconcile.Status.{data_unavailable}
use algo_dollar.Reconcile.Found.{Discrepancy, found, nothing}

pub record Snapshot (F : Type 0) : Type 0 where
  pub broker_positions : Option (List (Row F))
  pub broker_orders : Option (List (Row F))
  pub broker_trades : Option (List (Row F))
  pub broker_cash : Option (Row F)
  pub local_positions : Option (List (Row F))
  pub local_orders : Option (List (Row F))
  pub local_trades : Option (List (Row F))
  pub local_cash : Option (Row F)
  pub unavailable : List String

pub record Tolerances (F : Type 0) : Type 0 where
  pub qty : ℤ
  pub price_pct : F
  pub cash_abs : F
  pub cash_pct : F

-- `x or []`
abbrev pub rows_or : {A : Type 0} → Option (List A) → List A
rows_or none = []
rows_or (some rows) = rows

module _ {F : Type 0} where
  -- `not snap._missing(a, b)`
  unfoldable pub comparable : (broker_source local_source : String) → Snapshot F → Bool
  unfolding contains
  comparable a b snap = not (contains a snap.unavailable) && not (contains b snap.unavailable)

  -- `_unavailable_discrepancy`
  abbrev pub unavailable_discrepancy : String → Discrepancy F
  unavailable_discrepancy what = found data_unavailable what none nothing nothing

-- `abs(b - l) > tolerance`
unfoldable pub qty_differs : (tolerance b l : ℤ) → Bool
unfolding ◌-ℤ◌
qty_differs tolerance b l = ltb_ℤ tolerance (abs_ℤ (b -ℤ l))

module _ {F : Type 0} ⦃d : Double F⦄ where
  unfoldable pub price_differs : (a b tol_pct : F) → Bool
  price_differs a b tol_pct =
      if d.le a nought && d.le b nought
      then false
      else if d.le a nought || d.le b nought
      then true
      else d.lt tol_pct (d.div (d.abs (d.sub a b)) (max_double a b))
