-- ===== src/Reconcile/Orders.antt =====
-- `reconcile_orders` and `identify_unknown_orders` of reconciliation.py. The keys that both sides have
-- are a set in the code, in no fixed order; here they come in the broker's order.
pub mod Open
pub mod Known
use algo_dollar.Base.{
  ℕ, String, ◌==◌, Bool, true, false, not, ◌&&◌, ◌||◌, Option, none, some, List, [], ◌∷◌, ◌++◌, ℤ,
  is_nonempty, if◌then◌else◌,
}
use algo_dollar.Base.Dict.{Dict, lookup, insert, has_key}
use algo_dollar.Base.Member.{contains}
use algo_dollar.Errors.{Result, ok, err, ◌>>=◌}
use algo_dollar.Double.{Double}
use algo_dollar.Reconcile.Values.{
  Value, null, text, Row, Conversions, field_of, is_true, status_of, text_of, int_of, symbol_of,
}
use algo_dollar.Reconcile.Status.{
  missing_local, missing_broker, mismatched_qty, partial_fill_mismatch, unknown_order_state,
  classify_order_status, is_open_class, is_unknown_class, is_spelled, terminal_statuses,
}
use algo_dollar.Reconcile.Found.{
  Discrepancy, found, nothing, raw, whole, status, note_if, each, each_row,
}
use algo_dollar.Reconcile.Snapshot.{
  Snapshot, Tolerances, rows_or, comparable, unavailable_discrepancy, qty_differs,
}
use algo_dollar.Reconcile.Fills.{reconcile_fills}

-- `oid in (None, "", "None")`
abbrev pub has_no_id : {F : Type 0} → Value F → Bool
has_no_id null = true
has_no_id (text s) = not (is_nonempty s) || s == "None"
has_no_id _ = false

abbrev is_missing : {A : Type 0} → Option A → Bool
is_missing none = true
is_missing (some _) = false

module _ {F : Type 0} ⦃d : Double F⦄ where
  -- The rows that are open and have an order id.
  unfoldable pub is_open_row : List ℕ → Row F → Bool
  unfolding field_of classify_order_status
  is_open_row cs o = is_open_class (classify_order_status cs) && is_true (field_of o "order_id")

module _ {F : Type 0} ⦃d : Double F⦄ (py : Conversions F) where
  -- The dict of the open orders by their ids; a later row of an id takes the place of an earlier one.
  unfoldable pub open_from : Dict (Row F) → List (Row F) → Result (Dict (Row F))
  unfolding field_of status_of is_open_row
  open_from table [] = ok table
  open_from table (o ∷ orders) = status_of (field_of o "status") >>= λ cs.
      open_from
        (if is_open_row cs o then insert (text_of py (field_of o "order_id")) o table else table)
        orders

  unfoldable pub open_orders : List (Row F) → Result (Dict (Row F))
  unfolding open_from
  open_orders orders = open_from [] orders

  unfoldable pub broker_order : Dict (Row F) → String → Row F → Result (List (Discrepancy F))
  unfolding has_key field_of
  broker_order local_open oid o = ok (
      note_if (not (has_key oid local_open))
        (found missing_local (symbol_of py o) (some oid) (raw (field_of o "status")) nothing))

  unfoldable pub local_order : Dict (Row F) → String → Row F → Result (List (Discrepancy F))
  unfolding has_key field_of
  local_order broker_open oid o = ok (
      note_if (not (has_key oid broker_open))
        (found missing_broker (symbol_of py o) (some oid) nothing (raw (field_of o "status"))))

  -- An order that is open on both sides.
  unfoldable pub compare_rows :
      Tolerances F → String → (broker local : Row F) → Result (List (Discrepancy F))
  compare_rows tol oid b l = int_of py b "quantity" >>= λ bq. int_of py l "quantity" >>= λ lq.
      int_of py b "filled_quantity" >>= λ bf. int_of py l "filled_quantity" >>= λ lf. ok (
        note_if (qty_differs tol.qty bq lq)
          (found mismatched_qty (symbol_of py b) (some oid) (whole bq) (whole lq))
        ++ note_if (qty_differs tol.qty bf lf)
            (found partial_fill_mismatch (symbol_of py b) (some oid) (whole bf) (whole lf)))

  unfoldable pub common_order :
      Tolerances F → Dict (Row F) → String → Row F → Result (List (Discrepancy F))
  unfolding compare_rows
  common_order tol local_open oid b = elim (lookup oid local_open) [
    | none ↦ ok []
    | some l ↦ compare_rows tol oid b l
  ]

  -- The three loops over the open orders.
  unfoldable pub compare_orders :
      Tolerances F → (broker_open local_open : Dict (Row F)) → Result (List (Discrepancy F))
  unfolding each broker_order local_order common_order
  compare_orders tol broker_open local_open = each (broker_order local_open) broker_open >>= λ xs.
      (each (local_order broker_open) local_open >>= λ ys.
      each (common_order tol local_open) broker_open >>= λ zs. ok (ys ++ zs))
      >>= λ rest. ok (xs ++ rest)

  unfoldable pub reconcile_orders : Tolerances F → Snapshot F → Result (List (Discrepancy F))
  unfolding compare_orders open_orders comparable
  reconcile_orders tol snap =
      if comparable "broker_orders" "local_orders" snap
      then (open_orders (rows_or snap.broker_orders) >>= λ broker_open.
          open_orders (rows_or snap.local_orders) >>= λ local_open.
          compare_orders tol broker_open local_open >>= λ xs.
          reconcile_fills py tol snap >>= λ ys. ok (xs ++ ys))
      else (reconcile_fills py tol snap >>= λ ys. ok (unavailable_discrepancy "orders" ∷ ys))

  -- `str(oid) if oid else None`
  abbrev id_or_none : Value F → Option String
  id_or_none v = if is_true v then some (text_of py v) else none

  -- The loop of `_broker_status_for`.
  unfoldable pub find_status_of : String → List (Row F) → Option (Value F)
  unfolding field_of
  find_status_of oid [] = none
  find_status_of oid (b ∷ orders) =
      if text_of py (field_of b "order_id") == oid
      then some (field_of b "status")
      else find_status_of oid orders

  -- `_broker_status_for`
  unfoldable pub broker_status_for : Snapshot F → Value F → Option (Value F)
  unfolding find_status_of
  broker_status_for snap oid =
      if is_true oid then find_status_of (text_of py oid) (rows_or snap.broker_orders) else none

  abbrev shown_status : Option (Value F) → Discrepancy F → Discrepancy F
  shown_status none x = x
  shown_status (some v) x = record x { broker_value = raw v }

  unfoldable pub unknown_local : Snapshot F → Row F → Result (List (Discrepancy F))
  unfolding field_of status_of classify_order_status is_spelled broker_status_for
  unknown_local snap o =
      let oid = field_of o "order_id" in
      status_of (field_of o "status") >>= λ cs. ok (
        if is_unknown_class (classify_order_status cs)
        then shown_status (broker_status_for snap oid)
            (found unknown_order_state (symbol_of py o) (id_or_none oid) nothing (status cs))
          ∷ []
        else note_if (has_no_id oid && not (is_spelled cs terminal_statuses))
            (found unknown_order_state (symbol_of py o) none nothing (status cs)))

  unfoldable pub unknown_broker : Row F → Result (List (Discrepancy F))
  unfolding field_of status_of classify_order_status
  unknown_broker o =
      let oid = field_of o "order_id" in
      status_of (field_of o "status") >>= λ cs. ok (
        note_if (is_unknown_class (classify_order_status cs))
          (found unknown_order_state (symbol_of py o) (id_or_none oid) (status cs) nothing))

  -- `identify_unknown_orders`
  unfoldable pub identify_unknown_orders : Snapshot F → Result (List (Discrepancy F))
  unfolding each_row unknown_local unknown_broker contains
  identify_unknown_orders snap =
      if is_missing snap.local_orders && contains "local_orders" snap.unavailable
      then ok []
      else (each_row (unknown_local snap) (rows_or snap.local_orders) >>= λ xs.
          each_row unknown_broker (rows_or snap.broker_orders) >>= λ ys. ok (xs ++ ys))
