-- ===== src/Reconcile/Orders/Known.antt =====
-- What `identify_unknown_orders` of reconciliation.py guarantees when it finds nothing.
use algo_dollar.Base.{ℕ, ◌≡◌, true, false, List, [], arith, All}
use algo_dollar.Base.Member.{contains}
use algo_dollar.Errors.{ok, >>=-eq-ok}
use algo_dollar.Double.{Double}
use algo_dollar.Reconcile.Values.{Row, Conversions, field_of, status_of}
use algo_dollar.Reconcile.Status.{
  classify_order_status, is_unknown_class, is_spelled, terminal_statuses,
}
use algo_dollar.Reconcile.Found.{each_row, each_row-All, nothing_found, note_nothing}
use algo_dollar.Reconcile.Snapshot.{Snapshot, rows_or}
use algo_dollar.Reconcile.Orders.{has_no_id, unknown_local, unknown_broker, identify_unknown_orders}

module _ {F : Type 0} ⦃d : Double F⦄ where
  -- The status of the row is one that the vocabulary has.
  pub record IsKnown (row : Row F) : Type 0 where
    pub status : List ℕ
    pub reads : status_of (field_of row "status") ≡ ok status
    pub known : is_unknown_class (classify_order_status status) ≡ false

  -- A stored order of a known status that is done, or has the id that the broker gave it.
  pub record IsTraceable (row : Row F) : Type 0 where
    pub status : List ℕ
    pub reads : status_of (field_of row "status") ≡ ok status
    pub known : is_unknown_class (classify_order_status status) ≡ false
    pub named :
        has_no_id (field_of row "order_id") ≡ true → is_spelled status terminal_statuses ≡ true

module _ {F : Type 0} ⦃d : Double F⦄ (py : Conversions F) where
  unknown_local_nothing :
      (snap : Snapshot F) (o : Row F) → unknown_local py snap o ≡ ok [] → IsTraceable o
  unfolding unknown_local
  unknown_local_nothing snap o h =
      let (cs, e, h1) = >>=-eq-ok (status_of (field_of o "status")) _ h in
      record { status = cs; reads = e; known = ground arith; named = λ missing. ground arith }

  unknown_broker_nothing : (o : Row F) → unknown_broker py o ≡ ok [] → IsKnown o
  unfolding unknown_broker
  unknown_broker_nothing o h =
      let (cs, e, h1) = >>=-eq-ok (status_of (field_of o "status")) _ h in
      record {
        status = cs;
        reads = e;
        known = note_nothing (is_unknown_class (classify_order_status cs)) _ h1;
      }

  -- If the stored orders were read and `identify_unknown_orders` finds nothing, then every stored
  -- order has a status that the vocabulary knows, and a broker's order id unless that status is a
  -- final one; and every order of the broker, if its orders were read, has a known status.
  pub identify_unknown_orders-All :
      (snap : Snapshot F)
      → contains "local_orders" snap.unavailable ≡ false
      → identify_unknown_orders py snap ≡ ok []
      → All IsTraceable (rows_or snap.local_orders) × All IsKnown (rows_or snap.broker_orders)
  unfolding identify_unknown_orders
  identify_unknown_orders-All snap read h =
      let (first, second) =
        nothing_found (each_row (unknown_local py snap) (rows_or snap.local_orders))
          (each_row (unknown_broker py) (rows_or snap.broker_orders)) (ground arith) in
      (
        each_row-All (unknown_local py snap) (rows_or snap.local_orders)
            (unknown_local_nothing snap) first,
        each_row-All (unknown_broker py) (rows_or snap.broker_orders) unknown_broker_nothing second,
      )
