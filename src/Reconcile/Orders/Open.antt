-- ===== src/Reconcile/Orders/Open.antt =====
-- What `reconcile_orders` of reconciliation.py guarantees of the open orders when it finds nothing.
use algo_dollar.Base.{
  ℕ, ◌≡◌, refl, sym, ◌∙◌, ap, String, ◌==◌, Bool, true, false, not, ◌&&◌, Option, none, some, List,
  [], ◌∷◌, ℤ, if◌then◌else◌, arith, Bool-cases, Option-cases, inl, inr,
}
use algo_dollar.Base.Dict.{Dict, lookup, insert, lookup-insert, has_key, has_key-lookup}
use algo_dollar.Errors.{Result, ok, err, >>=-eq-ok, Result-cases}
use algo_dollar.Double.{Double}
use algo_dollar.Reconcile.Values.{Row, Conversions, field_of, status_of, text_of, int_of}
use algo_dollar.Reconcile.Found.{each, nothing_found, each-lookup, note_nothing, notes_nothing}
use algo_dollar.Reconcile.Snapshot.{Snapshot, Tolerances, rows_or, comparable, qty_differs}
use algo_dollar.Reconcile.Fills.{reconcile_fills}
use algo_dollar.Reconcile.Orders.{
  is_open_row, open_from, open_orders, broker_order, local_order, compare_rows, common_order,
  compare_orders, reconcile_orders,
}

module _ {F : Type 0} ⦃d : Double F⦄ (py : Conversions F) where
  abbrev pub is_open_under : String → Row F → Result (List ℕ) → Bool
  is_open_under oid o (ok cs) = is_open_row cs o && text_of py (field_of o "order_id") == oid
  is_open_under oid o (err _) = false

  -- The row is open, under this id.
  abbrev pub is_open_as : String → Row F → Bool
  is_open_as oid o = is_open_under oid o (status_of (field_of o "status"))

  -- The last row that is open under an id, if one comes after `best`.
  abbrev pub latest : String → Option (Row F) → List (Row F) → Option (Row F)
  latest oid best [] = best
  latest oid best (o ∷ orders) = latest oid (if is_open_as oid o then some o else best) orders

  open_one :
      (oid : String) (open_now : Bool) (o : Row F) (table : Dict (Row F))
      → lookup oid (if open_now then insert (text_of py (field_of o "order_id")) o table else table)
        ≡ (if open_now && text_of py (field_of o "order_id") == oid
            then some o
            else lookup oid table)
  open_one oid true o table = lookup-insert (text_of py (field_of o "order_id")) oid o table
  open_one oid false o table = refl

  open_from-latest :
      (oid : String) (orders : List (Row F)) (table t : Dict (Row F))
      → open_from py table orders ≡ ok t
      → lookup oid t ≡ latest oid (lookup oid table) orders
  unfolding open_from
  open_from-latest oid [] table t h = ground arith
  open_from-latest oid (o ∷ orders) table t h =
      elim (Result-cases (status_of (field_of o "status"))) [
        | inl (cs, e) ↦
            open_from-latest oid orders _ t (rw (e, open_from) at h)
            ∙ ap (λ best. latest oid best orders) (open_one oid (is_open_row cs o) o table)
            ∙ ap
                (λ st.
                  latest oid (if is_open_under oid o st then some o else lookup oid table) orders)
                (sym e)
        | inr (x, e) ↦ cc (rw (e, open_from) at h)
      ]

  open_orders_latest :
      (oid : String) (orders : List (Row F)) (t : Dict (Row F))
      → open_orders py orders ≡ ok t
      → lookup oid t ≡ latest oid none orders
  unfolding open_orders lookup
  open_orders_latest oid orders t h = open_from-latest oid orders [] t h

  -- Two rows of an order that agree on its quantity and on what is filled, up to the tolerance.
  pub record RowsAgree (tol : Tolerances F) (broker local : Row F) : Type 0 where
    pub broker_qty : ℤ
    pub local_qty : ℤ
    pub broker_reads : int_of py broker "quantity" ≡ ok broker_qty
    pub local_reads : int_of py local "quantity" ≡ ok local_qty
    pub qty_agrees : qty_differs tol.qty broker_qty local_qty ≡ false
    pub broker_filled : ℤ
    pub local_filled : ℤ
    pub broker_reads_filled : int_of py broker "filled_quantity" ≡ ok broker_filled
    pub local_reads_filled : int_of py local "filled_quantity" ≡ ok local_filled
    pub filled_agrees : qty_differs tol.qty broker_filled local_filled ≡ false

  compare_rows_agree :
      (tol : Tolerances F) (oid : String) (b l : Row F)
      → compare_rows py tol oid b l ≡ ok []
      → RowsAgree tol b l
  unfolding compare_rows
  compare_rows_agree tol oid b l h =
      let (bq, e1, h1) = >>=-eq-ok (int_of py b "quantity") _ h in
      let (lq, e2, h2) = >>=-eq-ok (int_of py l "quantity") _ h1 in
      let (bf, e3, h3) = >>=-eq-ok (int_of py b "filled_quantity") _ h2 in
      let (lf, e4, h4) = >>=-eq-ok (int_of py l "filled_quantity") _ h3 in
      let (qty, filled) =
        notes_nothing (qty_differs tol.qty bq lq) (qty_differs tol.qty bf lf) _ _ h4 in
      record {
        broker_qty = bq;
        local_qty = lq;
        broker_reads = e1;
        local_reads = e2;
        qty_agrees = qty;
        broker_filled = bf;
        local_filled = lf;
        broker_reads_filled = e3;
        local_reads_filled = e4;
        filled_agrees = filled;
      }

  -- Both sides have the order open, with rows that agree, or neither has.
  abbrev pub OpenAgree : Tolerances F → (broker local : Option (Row F)) → Type 0
  OpenAgree tol none none = Unit
  OpenAgree tol (some b) (some l) = RowsAgree tol b l
  OpenAgree tol _ _ = ⊥

  broker_order_nothing :
      (ls : Dict (Row F)) (oid : String) (b : Row F)
      → broker_order py ls oid b ≡ ok []
      → (l : Row F) × (lookup oid ls ≡ some l)
  unfolding broker_order
  broker_order_nothing ls oid b h =
      has_key-lookup oid ls (ground (arith, note_nothing (not (has_key oid ls)) _ h))

  local_order_nothing :
      (bs : Dict (Row F)) (oid : String) (l : Row F)
      → local_order py bs oid l ≡ ok []
      → (b : Row F) × (lookup oid bs ≡ some b)
  unfolding local_order
  local_order_nothing bs oid l h =
      has_key-lookup oid bs (ground (arith, note_nothing (not (has_key oid bs)) _ h))

  compare_orders_agree :
      (tol : Tolerances F) (oid : String) (bs ls : Dict (Row F))
      → compare_orders py tol bs ls ≡ ok []
      → OpenAgree tol (lookup oid bs) (lookup oid ls)
  unfolding compare_orders common_order
  compare_orders_agree tol oid bs ls h =
      let (first, others) = nothing_found (each (broker_order py ls) bs) _ h in
      let (second, third) = nothing_found (each (local_order py bs) ls) _ others in
      elim (Option-cases (lookup oid bs)) [
        | inl none_b ↦ elim (Option-cases (lookup oid ls)) [
          | inl none_l ↦ rw none_b (rw none_l tt)
          | inr (l, some_l) ↦
              let (b, some_b) =
                local_order_nothing bs oid l
                  (each-lookup (local_order py bs) oid l ls second some_l) in
              cc
        ]
        | inr (b, some_b) ↦
            let (l, some_l) =
              broker_order_nothing ls oid b
                (each-lookup (broker_order py ls) oid b bs first some_b) in
            let both = each-lookup (common_order py tol ls) oid b bs third some_b in
            rw some_b
              (rw some_l (compare_rows_agree tol oid b l (rw (some_l, common_order) at both)))
      ]

  -- What was compared, where nothing was found.
  pub reconcile_orders_parts :
      (tol : Tolerances F) (snap : Snapshot F)
      → reconcile_orders py tol snap ≡ ok []
      → (bs ls : Dict (Row F)) × (open_orders py (rows_or snap.broker_orders) ≡ ok bs)
        × (open_orders py (rows_or snap.local_orders) ≡ ok ls)
        × (compare_orders py tol bs ls ≡ ok [])
        × (reconcile_fills py tol snap ≡ ok [])
  unfolding reconcile_orders
  reconcile_orders_parts tol snap h =
      elim (Bool-cases (comparable "broker_orders" "local_orders" snap)) [
        | inl e ↦
            let (bs, b_open, h1) =
              >>=-eq-ok (open_orders py (rows_or snap.broker_orders)) _
                (rw (e, reconcile_orders) at h) in
            let (ls, l_open, h2) = >>=-eq-ok (open_orders py (rows_or snap.local_orders)) _ h1 in
            let (same, fills) = nothing_found (compare_orders py tol bs ls) _ h2 in
            (bs, ls, b_open, l_open, same, fills)
        | inr e ↦
            let (ys, y, bad) =
              >>=-eq-ok (reconcile_fills py tol snap) _ (rw (e, reconcile_orders) at h) in
            cc
      ]

  -- If the orders of both sides were read and `reconcile_orders` finds nothing, then every order id
  -- is open on both sides or on neither; and where it is open, the last row of the broker's and of
  -- the stored orders that are open under it agree on the quantity and on what is filled.
  pub reconcile_orders-agree :
      (tol : Tolerances F) (snap : Snapshot F) (oid : String)
      → reconcile_orders py tol snap ≡ ok []
      → OpenAgree tol
          (latest oid none (rows_or snap.broker_orders))
          (latest oid none (rows_or snap.local_orders))
  reconcile_orders-agree tol snap oid h =
      let (bs, ls, b_open, l_open, same, fills) = reconcile_orders_parts tol snap h in
      rw (open_orders_latest oid (rows_or snap.broker_orders) bs b_open) at (
        rw (open_orders_latest oid (rows_or snap.local_orders) ls l_open) at
          (compare_orders_agree tol oid bs ls same))
