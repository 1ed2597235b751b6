-- ===== src/Orders/Fill/Writes.antt =====
-- The calls that `handle_fill` of order_manager.py makes for a new fill, in their order.
use mathlib.Core.List.{append_assoc}
use algo_dollar.Base.{
  ◌≡◌, refl, sym, ◌∙◌, ap, subst, String, Bool, true, false, inl, inr, none, some, [], ◌∷◌, ◌++◌,
  pos, ◌+ℤ◌, ◌≤ℤ◌, eq_ℤ, if◌then◌else◌,
}
use algo_dollar.Errors.{ok, Result-cases}
use algo_dollar.Double.{Double}
use algo_dollar.Lifecycle.States.{OrderState, filled, partially_filled}
use algo_dollar.Lifecycle.Record.{
  OrderRecord, transition, transition_moved, moved_to, remaining_qty,
}
use algo_dollar.Lifecycle.Store.{FillData, Position, text_or}
use algo_dollar.Orders.Env.{Env}
use algo_dollar.Orders.Exec.{
  World, Log, Exec, save_call, trade_call, position_call, pure, ask, record_trade, save_record,
  apply_position_delta, ◌>>=◌, ◌>>◌,
}
use algo_dollar.Orders.Exec.Runs.{
  bind_returned, lifted_returned, call_returned, end_calls, pure_returned, pure_calls,
}
use algo_dollar.Orders.Fill.{FillReport, report_of, book_fill, fill_id_of, position_change}
use algo_dollar.Orders.Resolve.{get_record}

module _ {F X : Type 0} (env : Env F X) where
  pub get_record_reads : (ref : String) (w : World F X) → (get_record env ref w).1 ≡ w
  unfolding get_record ask pure ◌>>=◌
  get_record_reads ref w = elim (Result-cases (env.get ref w.outside)) [
    | inl (none, e) ↦ elim (Result-cases (env.list_open w.outside)) [
      | inl (rs, e') ↦ rw e (rw e' refl)
      | inr (x, e') ↦ rw e (rw e' refl)
    ]
    | inl (some r, e) ↦ rw e refl
    | inr (x, e) ↦ rw e refl
  ]

module _ {F X : Type 0} ⦃d : Double F⦄ (env : Env F X) where
  -- The calls for a fill that is new to the record, in their order, and the record that is written.
  pub record IsBooked (r : OrderRecord F) (fill : FillData F) (report : FillReport)
      (w v : World F X) : Type 0 where
    pub written : OrderRecord F
    pub filled_up : written.filled_qty ≡ r.filled_qty +ℤ fill.qty
    pub within_order : written.filled_qty ≤ℤ r.qty
    pub same_order : written.client_order_id ≡ r.client_order_id
    pub state :
        written.state ≡ (if eq_ℤ (remaining_qty written) (pos 0) then filled else partially_filled)
    pub reported : report ≡ report_of env false written
    pub extends :
        v.calls
        ≡ w.calls
          ++ (
            trade_call r.client_order_id
                (record fill { fill_id = some (fill_id_of env r.client_order_id fill) }),
            true,
          )
            ∷ (save_call written, true)
            ∷ (
              position_call written.symbol written.exchange written.product
                  (position_change (text_or fill.txn_type written.side) fill.qty)
                  fill.price,
              true,
            )
            ∷ []

  abbrev pub state_after : OrderRecord F → OrderState
  state_after r = if eq_ℤ (remaining_qty r) (pos 0) then filled else partially_filled

  pub moved_fields :
      (r q : OrderRecord F)
      → transition r (state_after r) "fill" false ≡ ok q
      → (q.state ≡ state_after q)
        × (q.filled_qty ≡ r.filled_qty)
        × (q.client_order_id ≡ r.client_order_id)
  unfolding transition moved_to remaining_qty
  moved_fields r q h =
      let (_, same) = transition_moved r (state_after r) "fill" false q h in
      subst
        (λ (q : OrderRecord F).
          (q.state ≡ state_after q)
          × (q.filled_qty ≡ r.filled_qty)
          × (q.client_order_id ≡ r.client_order_id))
        (sym same) (refl, refl, refl)

  abbrev pub moved_calls : OrderRecord F → FillData F → Log F
  moved_calls q fill =
      (save_call q, true)
      ∷ (
        position_call q.symbol q.exchange q.product
            (position_change (text_or fill.txn_type q.side) fill.qty) fill.price,
        true,
      )
      ∷ []

  -- The record is written, then the position is moved.
  abbrev saved_then_moved : OrderRecord F → FillData F → Exec F X (Position F)
  saved_then_moved q fill =
      save_record env q
      >> apply_position_delta env q.symbol q.exchange q.product
          (position_change (text_or fill.txn_type q.side) fill.qty) fill.price

  trade_calls :
      (cid : String) (fill : FillData F) (w : World F X) (first : Bool)
      → (record_trade env cid fill w).0 ≡ ok first
      → (record_trade env cid fill w).1.calls ≡ w.calls ++ (trade_call cid fill, true) ∷ []
  unfolding record_trade
  trade_calls cid fill w first h = call_returned _ _ w h

  saved_then_moved_calls :
      (q : OrderRecord F) (fill : FillData F) (w : World F X) (p : Position F)
      → (saved_then_moved q fill w).0 ≡ ok p
      → (saved_then_moved q fill w).1.calls ≡ w.calls ++ moved_calls q fill
  unfolding save_record apply_position_delta
  saved_then_moved_calls q fill w p h =
      let (u, e1, rest, same) = bind_returned (save_record env q) _ w h in
      end_calls same
      ∙ call_returned _ _ (save_record env q w).1 rest
      ∙ ap
          (λ l.
            l
            ++ (
              position_call q.symbol q.exchange q.product
                  (position_change (text_or fill.txn_type q.side) fill.qty) fill.price,
              true,
            )
              ∷ [])
          (call_returned _ _ w e1)
      ∙ append_assoc w.calls _ _

  pub book_fill_calls :
      (r : OrderRecord F) (fill : FillData F) (w : World F X) (report : FillReport)
      → (book_fill env r fill w).0 ≡ ok report
      → (q : OrderRecord F) × (transition r (state_after r) "fill" false ≡ ok q)
        × (report ≡ report_of env false q)
        × ((book_fill env r fill w).1.calls
            ≡ w.calls ++ (trade_call r.client_order_id fill, true) ∷ moved_calls q fill)
  unfolding book_fill
  book_fill_calls r fill w report h =
      let (first, e1, rest1, same1) =
        bind_returned (record_trade env r.client_order_id fill) _ w h in
      let w1 = (record_trade env r.client_order_id fill w).1 in
      let (q, e2, rest2, same2) =
        lifted_returned (transition r (state_after r) "fill" false) _ w1 rest1 in
      let (p, e3, rest3, same3) = bind_returned (saved_then_moved q fill) _ w1 rest2 in
      (
        q,
        e2,
        pure_returned _ _ rest3,
        end_calls same1
            ∙ end_calls same2
            ∙ end_calls same3
            ∙ pure_calls _ _
            ∙ saved_then_moved_calls q fill w1 p e3
            ∙ ap (λ l. l ++ moved_calls q fill) (trade_calls r.client_order_id fill w first e1)
            ∙ append_assoc w.calls _ (moved_calls q fill),
      )
