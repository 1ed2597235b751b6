-- ===== src/Orders/Fill/Booked.antt =====
-- What `handle_fill` of order_manager.py writes for a fill.
use algo_dollar.Base.{
  ◌≡◌, refl, sym, ◌∙◌, ap, subst, String, ◌<>◌, Bool, true, false, ◌⊎◌, inl, inr, Option, some, ◌∷◌,
  ◌++◌, ℤ, ◌≤ℤ◌, if◌then◌else◌, arith,
}
use algo_dollar.Base.Member.{contains}
use algo_dollar.Errors.{Result, ok, err, order_blocked}
use algo_dollar.Double.{Double}
use algo_dollar.Lifecycle.States.{is_blocked}
use algo_dollar.Lifecycle.Record.{OrderRecord, apply_fill}
use algo_dollar.Lifecycle.Fills.{apply_fill_outcome}
use algo_dollar.Lifecycle.Store.{FillData, text_or}
use algo_dollar.Orders.Env.{Env}
use algo_dollar.Orders.Exec.{World, trade_call, pure, raise}
use algo_dollar.Orders.Exec.Runs.{bind_ok, lifted_returned, raise_runs, pure_returned, pure_calls}
use algo_dollar.Orders.Fill.{
  FillReport, report_of, book_fill, apply_to_record, handle_fill, fill_id_of, parse_txn,
  parse_product,
}
use algo_dollar.Orders.Resolve.{get_record}
use algo_dollar.Orders.Fill.Writes.{
  IsBooked, moved_fields, moved_calls, book_fill_calls, get_record_reads,
}

module _ {F X : Type 0} ⦃d : Double F⦄ (env : Env F X) where
  -- What a report says of the call that gave it: a fill that the record has already, or a new one.
  abbrev pub IsHandled : OrderRecord F → FillData F → FillReport → World F X → World F X → Type 0
  IsHandled r fill report w v =
      ((report.duplicate ≡ true)
        × (contains (fill_id_of env r.client_order_id fill) r.applied_fill_ids ≡ true)
        × (v.calls ≡ w.calls))
      ⊎ ((report.duplicate ≡ false)
          × (contains (fill_id_of env r.client_order_id fill) r.applied_fill_ids ≡ false)
          × IsBooked env r fill report w v)

  apply_fill_same :
      (r r' : OrderRecord F) (applied : Bool) (qty : ℤ) (price : F) (id : String)
      → apply_fill r qty price id ≡ ok (r', applied)
      → r'.client_order_id ≡ r.client_order_id
  unfolding apply_fill
  apply_fill_same r r' applied qty price id h = ground arith

  -- After `apply_fill`.
  applied-IsHandled :
      (r r' : OrderRecord F) (applied : Bool) (fill : FillData F) (report : FillReport)
      (w : World F X)
      → let id = fill_id_of env r.client_order_id fill in
        (apply_fill r fill.qty fill.price id ≡ ok (r', applied)
          → ((if applied
                then book_fill env r' (record fill { fill_id = some id })
                else pure (report_of env true r'))
              w).0
            ≡ ok report
          → IsHandled r fill report w
              ((if applied
                  then book_fill env r' (record fill { fill_id = some id })
                  else pure (report_of env true r'))
                w).1)
  unfolding report_of
  applied-IsHandled r r' false fill report w e h =
      let (new, _, _, _, _, _) = apply_fill_outcome r fill.qty fill.price _ e in
      inl (ap (λ (x : FillReport). x.duplicate) (pure_returned _ w h), ground arith, pure_calls _ w)
  applied-IsHandled r r' true fill report w e h =
      let id = fill_id_of env r.client_order_id fill in
      let (new, qty, total, _, _, bounded) = apply_fill_outcome r fill.qty fill.price id e in
      let same_id = apply_fill_same r r' true fill.qty fill.price id e in
      let (q, moved_, report_same, calls) =
        book_fill_calls env r' (record fill { fill_id = some id }) w report h in
      let (state, filled_same, cid_same) = moved_fields env r' q moved_ in
      inr (
        ap (λ (x : FillReport). x.duplicate) report_same,
        ground arith,
        record {
          written = q;
          filled_up = filled_same ∙ total;
          within_order = subst (λ n. n ≤ℤ r.qty) (sym filled_same) (bounded refl);
          same_order = cid_same ∙ same_id;
          state = state;
          reported = report_same;
          extends =
              calls
              ∙ ap
                  (λ c.
                    w.calls
                    ++ (trade_call c (record fill { fill_id = some id }), true)
                      ∷ moved_calls env q (record fill { fill_id = some id }))
                  same_id;
        },
      )

  apply_to_record-IsHandled :
      (r : OrderRecord F) (fill : FillData F) (report : FillReport) (w : World F X)
      → (apply_to_record env r fill w).0 ≡ ok report
      → IsHandled r fill report w (apply_to_record env r fill w).1
  unfolding apply_to_record
  apply_to_record-IsHandled r fill report w h =
      let (txn, _, rest1, same1) =
        lifted_returned (parse_txn (text_or fill.txn_type r.side)) _ w h in
      let (product, _, rest2, same2) =
        lifted_returned (parse_product (text_or fill.product r.product)) _ w rest1 in
      let (applied, e, rest3, same3) =
        lifted_returned (apply_fill r fill.qty fill.price (fill_id_of env r.client_order_id fill)) _
          w rest2 in
      subst (λ (p : Result FillReport × World F X). IsHandled r fill report w p.1)
        (sym (same1 ∙ same2 ∙ same3))
        (applied-IsHandled r applied.0 applied.1 fill report w e rest3)

  -- When `handle_fill` returns for an order with a record, the order was not in UNKNOWN, and either
  -- the record had the fill's id already, the report says so, and nothing was written; or the id was
  -- new, and the calls were exactly these, each without an error: the trade under that id, the
  -- record with the quantity of the fill added, at most the whole order, in FILLED if nothing
  -- remains and in PARTIALLY_FILLED otherwise, and the change of the position by that quantity.
  pub handle_fill_once :
      (ref : String) (r : OrderRecord F) (fill : FillData F) (report : FillReport) (w : World F X)
      → (get_record env ref w).0 ≡ ok (some r)
      → (handle_fill env ref fill w).0 ≡ ok report
      → (is_blocked r.state ≡ false) × IsHandled r fill report w (handle_fill env ref fill w).1
  unfolding handle_fill
  handle_fill_once ref r fill report w found h =
      let run : handle_fill env ref fill w ≡ _ = bind_ok (get_record env ref) _ (
        ap (λ (m : Result (Option (OrderRecord F))). (m, (get_record env ref w).1)) found
        ∙ ap (λ (v : World F X). (ok (some r), v)) (get_record_reads env ref w)) in
      go (is_blocked r.state) refl run
    where
      go :
          (b : Bool)
          → is_blocked r.state ≡ b
          → handle_fill env ref fill w
            ≡ (if b
                  then raise (order_blocked ("Fill while UNKNOWN for " <> r.client_order_id))
                  else apply_to_record env r fill)
                w
          → (is_blocked r.state ≡ false) × IsHandled r fill report w (handle_fill env ref fill w).1
      go true e run =
          let raised : (handle_fill env ref fill w).0 ≡ err _ =
            ap (λ (p : Result FillReport × World F X). p.0) (run ∙ raise_runs _ w) in
          ground arith
      go false e run = (
        e,
        subst (λ (p : Result FillReport × World F X). IsHandled r fill report w p.1) (sym run)
            (apply_to_record-IsHandled r fill report w
              (ap (λ (p : Result FillReport × World F X). p.0) (sym run) ∙ h)),
      )
