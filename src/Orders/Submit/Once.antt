-- ===== src/Orders/Submit/Once.antt =====
-- `submit_order` of order_manager.py places at most one order, and only one that was reserved,
-- checked and durably written first.
use algo_dollar.Base.{◌≡◌, refl, ap, ◌∙◌, Bool, true, ℤ, if◌then◌else◌, arith}
use algo_dollar.Errors.{Result, ok, err}
use algo_dollar.Double.{Double}
use algo_dollar.Lifecycle.Record.{OrderRecord}
use algo_dollar.Safety.Validate.{validate_order}
use algo_dollar.Orders.Env.{Env, Settings}
use algo_dollar.Orders.Exec.{World, Exec, call, lift, reserve_record, ◌>>=◌, ◌>>◌}
use algo_dollar.Orders.Exec.Calls.{IsKept, IsQuiet-bind, IsQuiet-lift, IsQuiet-reserve}
use algo_dollar.Orders.Pricing.{Signal}
use algo_dollar.Orders.Quiet.{handle_existing_intent-IsQuiet}
use algo_dollar.Orders.Submit.{
  Account, require_eligible_for_live, new_record, check_of, place_args, submit_reserved,
  submit_order,
}
use algo_dollar.Orders.Resolve.{handle_existing_intent}
use algo_dollar.Orders.Submit.Sends.{
  MaySend, IsSender, IsSender-of_quiet, IsSender-if, IsSender-either, sender_end, send_after,
}
use algo_dollar.Orders.Submit.Stages.{submit_reserved-IsSender}

-- What stands before an order at the broker, when `submit_order` starts in the state `x`.
pub record IsCleared {F X : Type 0} ⦃d : Double F⦄ (env : Env F X) (settings : Settings F)
    (P : X → Type 0) (sig : Signal F) (size : ℤ) (account : Account F) (x : X) : Type 0 where
  pub eligible : require_eligible_for_live env ≡ ok tt
  pub reserved : (env.reserve (new_record env settings sig size) x).0 ≡ ok true
  pub gated_at : X
  pub held : P gated_at
  pub ref_price : F
  pub trade_risk : F
  pub passed :
      (validate_order env.switch settings.require_market_hours_support gated_at
        (env.view gated_at)
        (check_of env settings sig size account ref_price trade_risk)).passed
      ≡ true

module _ {F X : Type 0} ⦃d : Double F⦄ (env : Env F X) (settings : Settings F) {P : X → Type 0}
    (kept : IsKept env P) where
  eligible_and_reserved :
      (el : Result (Unit {0})) (r : OrderRecord F) (w : World F X) (b : Bool)
      → ((lift el >> reserve_record env r) w).0 ≡ ok b
      → (el ≡ ok tt) × ((env.reserve r w.outside).0 ≡ ok b)
  unfolding lift reserve_record call ◌>>=◌
  eligible_and_reserved (ok tt) r w b e = (refl, e)
  eligible_and_reserved (err x) r w b e = ground arith

  -- From every state with a property `P` that each call on the store and the broker keeps,
  -- `submit_order` adds to the log either no order at the broker, or exactly one: the order of the
  -- signal, called right after its record, in SUBMITTED and under the same client order id, was
  -- written without an error. In that case the process was eligible to trade live or the broker is
  -- a paper broker, the first call reserved the id, and every safety gate had passed in a state
  -- that has `P`. The end state has `P` in all cases.
  pub submit_order_once :
      (sig : Signal F) (size : ℤ) (account : Account F) (w : World F X)
      → P w.outside
      → MaySend P
          (place_args env settings sig size)
          (IsCleared env settings P sig size account w.outside)
          w
          (submit_order env settings sig size account w)
  unfolding submit_order
  submit_order_once sig size account w p =
      send_after _ _ w (IsQuiet-bind _ _ (IsQuiet-lift _) (λ _. IsQuiet-reserve env kept _)) p
        (λ b same.
          let (_, _, _, k) =
            (IsQuiet-bind _ _ (IsQuiet-lift (require_eligible_for_live env))
                (λ _. IsQuiet-reserve env kept (new_record env settings sig size))).at
              w in
          (IsSender-if b _ _
              (λ yes.
                let (el, rs) =
                  eligible_and_reserved (require_eligible_for_live env)
                    (new_record env settings sig size) w b same in
                submit_reserved-IsSender env settings kept sig size account
                  (λ x ref_price risk q v. record {
                    eligible = el;
                    reserved = rs ∙ ap ok yes;
                    gated_at = x;
                    held = q;
                    ref_price = ref_price;
                    trade_risk = risk;
                    passed = v;
                  })
                  (new_record env settings sig size) refl)
              (λ _. IsSender-of_quiet _ (handle_existing_intent-IsQuiet env kept _))).from
            ((lift (require_eligible_for_live env)
                >> reserve_record env (new_record env settings sig size))
              w).1
            (k p))

  pub eligible_then :
      (el : Result (Unit {0})) (r : OrderRecord F) (w : World F X)
      → el ≡ ok tt
      → (lift el >> reserve_record env r) w ≡ reserve_record env r w
  unfolding lift ◌>>=◌
  eligible_then (ok tt) r w e = refl
  eligible_then (err x) r w e = ground arith

  after_reservation-IsSender :
      (sig : Signal F) (size : ℤ) (account : Account F) (b : Bool)
      → IsSender P (place_args env settings sig size) (Unit {0}) (
          if b
          then submit_reserved env settings sig size account (new_record env settings sig size)
          else handle_existing_intent env sig.client_order_id)
  unfolding new_record
  after_reservation-IsSender sig size account b =
      IsSender-either b _ _
        (submit_reserved-IsSender env settings kept sig size account (λ _ _ _ _ _. tt)
          (new_record env settings sig size) refl)
        (IsSender-of_quiet _ (handle_existing_intent-IsQuiet env kept _))

  -- What holds after the reservation, holds at the end.
  pub reserved_to_end :
      (sig : Signal F) (size : ℤ) (account : Account F) (w : World F X)
      → require_eligible_for_live env ≡ ok tt
      → (env.reserve (new_record env settings sig size) w.outside).0 ≡ ok true
      → P (env.reserve (new_record env settings sig size) w.outside).1
      → P (submit_order env settings sig size account w).1.outside
  unfolding submit_order reserve_record call ◌>>=◌
  reserved_to_end sig size account w el won p =
      let r = new_record env settings sig size in
      let m : Exec F X Bool = lift (require_eligible_for_live env) >> reserve_record env r in
      let same = eligible_then (require_eligible_for_live env) r w el in
      sender_end m _ w (after_reservation-IsSender sig size account) (rw same p)
