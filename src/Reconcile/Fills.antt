-- ===== src/Reconcile/Fills.antt =====
-- `FillGroup`, `_group_fills`, `_fill_qty`, `_fill_price` and `_reconcile_fills` of reconciliation.py.
pub mod Totals
use algo_dollar.Base.{
  ℕ, String, Bool, true, false, not, Option, none, some, List, [], ◌∷◌, ◌++◌, ℤ, pos, ◌+ℤ◌, eq_ℤ,
  nat_eq, length, is_nonempty, if◌then◌else◌,
}
use algo_dollar.Base.Dict.{Dict, lookup, insert, has_key}
use algo_dollar.Errors.{Result, ok, err, ◌>>=◌}
use algo_dollar.Double.{Double, nought}
use algo_dollar.Reconcile.Values.{
  Value, null, text, Row, Conversions, field_of, text_of, to_float, symbol_of,
}
use algo_dollar.Reconcile.Status.{
  missing_local, missing_broker, mismatched_qty, partial_fill_mismatch, mismatched_price, warning,
}
use algo_dollar.Reconcile.Found.{Discrepancy, found, nothing, whole, number, note_if, each}
use algo_dollar.Reconcile.Snapshot.{
  Snapshot, Tolerances, rows_or, comparable, unavailable_discrepancy, qty_differs, price_differs,
}

pub record FillGroup (F : Type 0) : Type 0 where
  pub order_id : String
  pub symbol : String
  pub fills : List (Row F)

-- `oid in (None, "")`
abbrev pub is_missing_id : {F : Type 0} → Value F → Bool
is_missing_id null = true
is_missing_id (text s) = not (is_nonempty s)
is_missing_id _ = false

abbrev pub qty_keys : List String
qty_keys = "quantity" ∷ "qty" ∷ "filled_quantity" ∷ "filled_qty" ∷ []

abbrev pub price_keys : List String
price_keys = "price" ∷ "average_price" ∷ "fill_price" ∷ []

module _ {F : Type 0} ⦃d : Double F⦄ where
  -- What is wrong with an executed order, from the totals and average prices of its two groups.
  unfoldable pub group_notes :
      Tolerances F
      → String
      → (broker local : FillGroup F) → (bq lq : ℤ) → (bp lp : F) → List (Discrepancy F)
  group_notes tol oid b l bq lq bp lp =
      (if qty_differs tol.qty bq lq
        then found mismatched_qty b.symbol (some oid) (whole bq) (whole lq) ∷ []
        else note_if (not (nat_eq (length b.fills) (length l.fills)))
            (record (found partial_fill_mismatch b.symbol (some oid) (whole (pos (length b.fills)))
              (whole (pos (length l.fills)))) { severity = warning }))
      ++ note_if (price_differs bp lp tol.price_pct)
          (found mismatched_price b.symbol (some oid) (number (d.round4 bp)) (number (d.round4 lp)))

module _ {F : Type 0} ⦃d : Double F⦄ (py : Conversions F) where
  -- The first key of the list with a numeric value; a key that is missing reads as `None`, which is
  -- no number either.
  unfoldable pub first_number : List String → Row F → Result (Option F)
  unfolding to_float field_of
  first_number [] fill = ok none
  first_number (key ∷ keys) fill = to_float py (field_of fill key) >>= λ v. elim v [
    | some x ↦ ok (some x)
    | none ↦ first_number keys fill
  ]

  abbrev whole_of : Option F → Result ℤ
  whole_of none = ok (pos 0)
  whole_of (some x) = py.whole x

  abbrev number_or : Option F → F
  number_or none = nought
  number_or (some x) = x

  unfoldable pub fill_qty : Row F → Result ℤ
  unfolding first_number
  fill_qty fill = first_number qty_keys fill >>= whole_of

  unfoldable pub fill_price : Row F → Result F
  unfolding first_number
  fill_price fill = first_number price_keys fill >>= λ x. ok (number_or x)

  -- `FillGroup.total_qty`, of the fills
  unfoldable pub total_qty : List (Row F) → Result ℤ
  total_qty [] = ok (pos 0)
  total_qty (fill ∷ fills) = fill_qty fill >>= λ q. total_qty fills >>= λ t. ok (q +ℤ t)

  unfoldable pub notional_from : F → List (Row F) → Result F
  unfolding fill_price
  notional_from acc [] = ok acc
  notional_from acc (fill ∷ fills) = fill_qty fill >>= λ q.
      fill_price fill >>= λ p. py.of_int q >>= λ x. notional_from (d.add acc (d.mul x p)) fills

  -- `FillGroup.vwap`
  unfoldable pub vwap : List (Row F) → Result F
  unfolding notional_from total_qty
  vwap fills = total_qty fills >>= λ total.
      if eq_ℤ total (pos 0)
      then ok nought
      else (notional_from nought fills >>= λ notional.
          py.of_int total >>= λ x. ok (d.div notional x))

  abbrev pub add_fill : Row F → String → Option (FillGroup F) → FillGroup F
  add_fill t oid none = record { order_id = oid; symbol = symbol_of py t; fills = t ∷ [] }
  add_fill t oid (some g) = record g { fills = g.fills ++ t ∷ [] }

  -- One round of the loop of `_group_fills`.
  unfoldable pub group_one : Row F → Dict (FillGroup F) → Dict (FillGroup F)
  unfolding field_of
  group_one t groups =
      let oid = text_of py (field_of t "order_id") in
      if is_missing_id (field_of t "order_id")
      then groups
      else insert oid (add_fill t oid (lookup oid groups)) groups

  unfoldable pub group_from : Dict (FillGroup F) → List (Row F) → Dict (FillGroup F)
  unfolding group_one
  group_from groups [] = groups
  group_from groups (t ∷ trades) = group_from (group_one t groups) trades

  -- `_group_fills`
  unfoldable pub group_fills : List (Row F) → Dict (FillGroup F)
  unfolding group_from
  group_fills trades = group_from [] trades

  -- An executed order on both sides.
  unfoldable pub compare_groups :
      Tolerances F → String → (broker local : FillGroup F) → Result (List (Discrepancy F))
  unfolding total_qty vwap group_notes
  compare_groups tol oid b l = total_qty b.fills >>= λ bq. total_qty l.fills >>= λ lq.
      vwap b.fills >>= λ bp. vwap l.fills >>= λ lp. ok (group_notes tol oid b l bq lq bp lp)

  -- The first loop of `_reconcile_fills`, at one order.
  unfoldable pub broker_group :
      Tolerances F → Dict (FillGroup F) → String → FillGroup F → Result (List (Discrepancy F))
  unfolding compare_groups
  broker_group tol local_fills oid b = elim (lookup oid local_fills) [
    | none ↦
        (total_qty b.fills >>= λ q.
        ok (found missing_local b.symbol (some oid) (whole q) nothing ∷ []))
    | some l ↦ compare_groups tol oid b l
  ]

  -- The second.
  unfoldable pub local_group :
      Dict (FillGroup F) → String → FillGroup F → Result (List (Discrepancy F))
  unfolding has_key
  local_group broker_fills oid l = elim (has_key oid broker_fills) [
    | true ↦ ok []
    | false ↦
        (total_qty l.fills >>= λ q.
        ok (found missing_broker l.symbol (some oid) nothing (whole q) ∷ []))
  ]

  unfoldable pub compare_fills :
      Tolerances F → (broker_fills local_fills : Dict (FillGroup F)) → Result (List (Discrepancy F))
  unfolding each broker_group local_group
  compare_fills tol broker_fills local_fills =
      each (broker_group tol local_fills) broker_fills >>= λ xs.
      each (local_group broker_fills) local_fills >>= λ ys. ok (xs ++ ys)

  -- `_reconcile_fills`
  unfoldable pub reconcile_fills : Tolerances F → Snapshot F → Result (List (Discrepancy F))
  unfolding compare_fills comparable
  reconcile_fills tol snap =
      if comparable "broker_trades" "local_trades" snap
      then compare_fills tol (group_fills (rows_or snap.broker_trades))
          (group_fills (rows_or snap.local_trades))
      else ok (unavailable_discrepancy "fills" ∷ [])
