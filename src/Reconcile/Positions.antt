-- ===== src/Reconcile/Positions.antt =====
-- `_position_key`, `_position_map`, `reconcile_positions` and `reconcile_cash` of reconciliation.py. The
-- keys that both sides have are a set in the code; here they come in the broker's order.
pub mod Net
pub mod Agree
pub mod Cash
use algo_dollar.Base.{
  String, ◌<>◌, Bool, true, false, not, ◌&&◌, ◌||◌, Option, none, some, List, [], ◌∷◌, ◌++◌, ℤ, pos,
  ◌+ℤ◌, eq_ℤ, if◌then◌else◌,
}
use algo_dollar.Base.Dict.{Dict, lookup, insert, has_key}
use algo_dollar.Errors.{Result, ok, err, ◌>>=◌}
use algo_dollar.Double.{Double, nought, max_double}
use algo_dollar.Reconcile.Values.{
  Value, text, int, float, Row, Conversions, field_of, or_value, text_of, to_float, float_of,
  int_of,
}
use algo_dollar.Reconcile.Status.{
  missing_local, missing_broker, mismatched_qty, mismatched_price, mismatched_cash,
  data_unavailable,
}
use algo_dollar.Reconcile.Found.{
  Discrepancy, found, nothing, raw, whole, number, note_if, each, each_row,
}
use algo_dollar.Reconcile.Snapshot.{
  Snapshot, Tolerances, rows_or, comparable, unavailable_discrepancy, qty_differs, price_differs,
}

abbrev pub cash_fields : List String
cash_fields = "cash" ∷ "margin_available" ∷ "margin_used" ∷ []

module _ {F : Type 0} ⦃d : Double F⦄ where
  -- `max(self._cash_tol_abs, abs(b) * self._cash_tol_pct)`
  abbrev pub cash_tolerance : Tolerances F → F → F
  cash_tolerance tol b = max_double tol.cash_abs (d.mul (d.abs b) tol.cash_pct)

  -- The two numbers of one field, if both are numbers.
  unfoldable pub compare_cash :
      Tolerances F → String → (broker local : Value F) → Option F → Option F → List (Discrepancy F)
  compare_cash tol name bv lv (some b) (some l) =
      note_if (d.lt (cash_tolerance tol b) (d.abs (d.sub b l)))
        (found mismatched_cash name none (number b) (number l))
  compare_cash tol name bv lv _ _ = found data_unavailable name none (raw bv) (raw lv) ∷ []

module _ {F : Type 0} ⦃d : Double F⦄ (py : Conversions F) where
  -- `_position_key`
  unfoldable pub key_of_position : Row F → String
  unfolding field_of
  key_of_position p =
      let symbol =
        or_value (field_of p "tradingsymbol") (or_value (field_of p "symbol") (text "UNKNOWN")) in
      let exchange = or_value (field_of p "exchange") (text "NSE") in
      let product = or_value (field_of p "product") (text "CNC") in
      text_of py exchange <> (":" <> (text_of py symbol <> (":" <> text_of py product)))

  -- `((q1 * p1) + (q2 * p2)) / total`
  abbrev weighted_price : (q1 q2 : ℤ) → (p1 p2 : F) → Result F
  weighted_price q1 q2 p1 p2 = py.of_int q1 >>= λ x1. py.of_int q2 >>= λ x2.
      py.of_int (q1 +ℤ q2) >>= λ total. ok (d.div (d.add (d.mul x1 p1) (d.mul x2 p2)) total)

  -- The average of two rows of one key, weighted by their quantities.
  abbrev pub merged_price : (q1 q2 : ℤ) → (p1 p2 : F) → Result F
  merged_price q1 q2 p1 p2 =
      if eq_ℤ (q1 +ℤ q2) (pos 0) then ok nought else weighted_price q1 q2 p1 p2

  -- The first row, with the quantity and the average of both.
  unfoldable pub merged_row : Row F → ℤ → F → Row F
  unfolding insert
  merged_row merged total price =
      insert "average_price" (float price) (insert "quantity" (int total) merged)

  unfoldable pub merge_rows : Row F → Row F → Result (Row F)
  unfolding int_of float_of merged_row ◌+ℤ◌
  merge_rows merged p = int_of py merged "quantity" >>= λ q1. int_of py p "quantity" >>= λ q2.
      float_of py merged "average_price" >>= λ p1. float_of py p "average_price" >>= λ p2.
      merged_price q1 q2 p1 p2 >>= λ price. ok (merged_row merged (q1 +ℤ q2) price)

  -- One round of the loop of `_position_map`.
  unfoldable pub place_row : Row F → Dict (Row F) → Result (Dict (Row F))
  unfolding merge_rows key_of_position
  place_row p out = elim (lookup (key_of_position p) out) [
    | none ↦ ok (insert (key_of_position p) p out)
    | some merged ↦ (merge_rows merged p >>= λ row. ok (insert (key_of_position p) row out))
  ]

  unfoldable pub position_map_from : Dict (Row F) → List (Row F) → Result (Dict (Row F))
  unfolding place_row
  position_map_from out [] = ok out
  position_map_from out (p ∷ positions) =
      place_row p out >>= λ next. position_map_from next positions

  -- `_position_map`
  unfoldable pub position_map : List (Row F) → Result (Dict (Row F))
  unfolding position_map_from
  position_map positions = position_map_from [] positions

  unfoldable pub broker_position : Dict (Row F) → String → Row F → Result (List (Discrepancy F))
  unfolding has_key
  broker_position local_map key b = int_of py b "quantity" >>= λ q. ok (
      note_if (not (eq_ℤ q (pos 0)) && not (has_key key local_map))
        (found missing_local key none (whole q) nothing))

  -- Whether the broker's map holds none of a key.
  unfoldable pub is_flat_at : Dict (Row F) → String → Result Bool
  unfolding int_of
  is_flat_at table key = elim (lookup key table) [
    | none ↦ ok true
    | some row ↦ (int_of py row "quantity" >>= λ q. ok (eq_ℤ q (pos 0)))
  ]

  unfoldable pub local_position : Dict (Row F) → String → Row F → Result (List (Discrepancy F))
  unfolding is_flat_at
  local_position broker_map key l = int_of py l "quantity" >>= λ q. elim (eq_ℤ q (pos 0)) [
    | true ↦ ok []
    | false ↦
        (is_flat_at broker_map key >>= λ flat.
        ok (note_if flat (found missing_broker key none nothing (whole q))))
  ]

  -- A key that both sides have.
  unfoldable pub compare_held :
      Tolerances F → String → (broker local : Row F) → Result (List (Discrepancy F))
  compare_held tol key b l = int_of py b "quantity" >>= λ bq. int_of py l "quantity" >>= λ lq.
      float_of py b "average_price" >>= λ bp. float_of py l "average_price" >>= λ lp. ok (
        note_if (qty_differs tol.qty bq lq) (found mismatched_qty key none (whole bq) (whole lq))
        ++ note_if (price_differs bp lp tol.price_pct)
            (found mismatched_price key none (number (d.round4 bp)) (number (d.round4 lp))))

  unfoldable pub common_position :
      Tolerances F → Dict (Row F) → String → Row F → Result (List (Discrepancy F))
  unfolding compare_held
  common_position tol local_map key b = elim (lookup key local_map) [
    | none ↦ ok []
    | some l ↦ compare_held tol key b l
  ]

  unfoldable pub compare_positions :
      Tolerances F → (broker_map local_map : Dict (Row F)) → Result (List (Discrepancy F))
  unfolding each broker_position local_position common_position
  compare_positions tol broker_map local_map = each (broker_position local_map) broker_map >>= λ xs.
      (each (local_position broker_map) local_map >>= λ ys.
      each (common_position tol local_map) broker_map >>= λ zs. ok (ys ++ zs))
      >>= λ rest. ok (xs ++ rest)

  unfoldable pub reconcile_positions : Tolerances F → Snapshot F → Result (List (Discrepancy F))
  unfolding compare_positions position_map comparable
  reconcile_positions tol snap =
      if comparable "broker_positions" "local_positions" snap
      then (position_map (rows_or snap.broker_positions) >>= λ broker_map.
          position_map (rows_or snap.local_positions) >>= λ local_map.
          compare_positions tol broker_map local_map)
      else ok (unavailable_discrepancy "positions" ∷ [])

  -- One round of the loop of `reconcile_cash`.
  unfoldable pub compare_field :
      Tolerances F → (broker_cash local_cash : Row F) → String → Result (List (Discrepancy F))
  unfolding compare_cash has_key to_float field_of
  compare_field tol b l name =
      if has_key name b && has_key name l
      then (to_float py (field_of b name) >>= λ x. to_float py (field_of l name) >>= λ y.
          ok (compare_cash tol name (field_of b name) (field_of l name) x y))
      else ok []

  -- `reconcile_cash`
  unfoldable pub reconcile_cash : Tolerances F → Snapshot F → Result (List (Discrepancy F))
  unfolding compare_field each_row comparable
  reconcile_cash tol snap =
      if comparable "broker_cash" "local_cash" snap
      then each_row (compare_field tol (rows_or snap.broker_cash) (rows_or snap.local_cash))
          cash_fields
      else ok (unavailable_discrepancy "cash" ∷ [])
