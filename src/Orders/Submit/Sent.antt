-- ===== src/Orders/Submit/Sent.antt =====
-- A LIMIT order that nothing stands against is sent (`submit_order` of order_manager.py).
use algo_dollar.Base.{
  ◌+◌, ◌≡◌, refl, sym, subst, ◌∙◌, ap, String, Bool, true, false, not, ◌&&◌, ◌||◌, Option, none,
  some, List, [], ◌∷◌, ℤ, is_nonempty, if◌then◌else◌, arith,
}
use algo_dollar.Errors.{Exn, Result, ok, is_ok}
use algo_dollar.Double.{Double, nought, or_nought}
use algo_dollar.Lifecycle.Record.{OrderRecord, moved_to}
use algo_dollar.Lifecycle.States.{
  OrderState, intent_created, risk_check_pending, risk_approved, submitted,
}
use algo_dollar.Orders.Broker.{limit, is_market_priced, is_triggered}
use algo_dollar.Orders.Costs.{compute_trade_risk}
use algo_dollar.Orders.Env.{Env, Settings}
use algo_dollar.Orders.Exec.{
  World, Exec, reserve_call, pure, raise, lift, attempt, call, reserve_record, ◌>>◌,
}
use algo_dollar.Orders.Exec.Calls.{places, places-append, kept_nothing}
use algo_dollar.Orders.Exec.Runs.{bind_ok}
use algo_dollar.Orders.Submit.Once.{eligible_then}
use algo_dollar.Orders.Exec.Does.{
  Does, Does-pure, Does-lift, Does-ask, Does-if_true, Does-if_false, Does-then, Does-weaken, Saves,
  Does-save, Does-place, transition_moves,
}
use algo_dollar.Orders.Pricing.{Signal, is_usable, resolve_reference_price}
use algo_dollar.Orders.Resolve.{find_blocking, blocking_record_for}
use algo_dollar.Orders.Submit.{
  Account, require_eligible_for_live, persist_order, new_record, check_of, run_validation,
  place_args, after_place, send, with_trigger, with_risk, with_risk_of, with_price, priced,
  submit_reserved, submit_order,
}
use algo_dollar.Safety.Validate.{OrderCheck, validate_order}
use algo_dollar.Orders.Submit.Accepted.{after_place-Does}

-- Nothing stands against the order in the state `x`. `Before` and `After` are what holds behind the
-- interfaces from the reservation to the one call of the broker, and from then on: the writes of
-- the order's own records return and keep it, and before the call the gates pass.
pub record GoesThrough {F X : Type 0} ⦃d : Double F⦄ (env : Env F X) (settings : Settings F)
    (sig : Signal F) (size : ℤ) (account : Account F) (Before After : X → Type 0) (x : X)
    : Type 0 where
  pub eligible : require_eligible_for_live env ≡ ok tt
  pub reserved : (env.reserve (new_record env settings sig size) x).0 ≡ ok true
  pub begins : Before (env.reserve (new_record env settings sig size) x).1
  pub open_orders : List (OrderRecord F)
  pub listed : env.list_open (env.reserve (new_record env settings sig size) x).1 ≡ ok open_orders
  pub unblocked : find_blocking sig open_orders ≡ none
  pub saves : Saves env sig.client_order_id Before
  pub is_limit : sig.order_type ≡ limit
  pub usable : is_usable sig.price ≡ true
  pub trade_risk : F
  pub risked :
      compute_trade_risk settings.require_stop size sig.price sig.stop_price ≡ ok trade_risk
  pub gates :
      (y : X)
      → Before y
      → (validate_order env.switch settings.require_market_hours_support y
          (env.view y)
          (check_of env settings sig size account sig.price trade_risk)).passed
        ≡ true
  pub order_id : String
  pub named : is_nonempty order_id ≡ true
  pub accepts :
      (y : X)
      → Before y
      → ((env.place_order (place_args env settings sig size) y).0 ≡ ok (some order_id))
        × After (env.place_order (place_args env settings sig size) y).1
  pub saves_after : Saves env sig.client_order_id After

module _ {F X : Type 0} ⦃d : Double F⦄ (env : Env F X) (settings : Settings F) (sig : Signal F)
    (size : ℤ) (account : Account F) {Before After : X → Type 0} {x : X}
    (g : GoesThrough env settings sig size account Before After x) where
  -- The order's own record, in a state.
  abbrev Ours : OrderState → OrderRecord F → Type 0
  Ours s r = (r.state ≡ s) × (r.client_order_id ≡ sig.client_order_id)

  -- The whole of what is left returns the id and places one order.
  abbrev Sends : (X → Type 0) → Exec F X (Option String) → Type 0
  Sends P m = Does P (λ o. o ≡ some g.order_id) (λ _. Unit {0}) 1 m

  send-Does :
      (ref_price : F) (r : OrderRecord F)
      → Ours risk_approved r
      → Sends Before (send env settings sig size ref_price r)
  unfolding send persist_order moved_to
  send-Does ref_price r (s, same) =
      Does-then _ _
        (Does-lift {Q = Ours submitted} _ _
          (transition_moves r submitted "sending to broker" false (rw s refl)) (refl, same))
        (λ r' (s', same').
          Does-then _ _
            (Does-then _ _ (Does-save env g.saves _ same') (λ _ _.
              Does-place env (place_args env settings sig size) (some g.order_id) g.accepts))
            (λ o e.
              subst
                (λ o.
                  Does After (λ a. a ≡ some g.order_id) (λ _. Unit {0}) 0
                    (after_place env settings r' o))
                (sym e)
                (after_place-Does env settings g.saves_after r' g.order_id s' same' g.named)))

  with_trigger-Does :
      (ref_price : F) (r : OrderRecord F)
      → Ours risk_approved r
      → Sends Before (with_trigger env settings sig size ref_price r)
  unfolding with_trigger
  with_trigger-Does ref_price r s =
      let plain : is_triggered sig.order_type ≡ false = ap is_triggered g.is_limit in
      Does-if_false
        (is_triggered sig.order_type
          && (not (d.is_finite (or_nought sig.stop_price))
              || d.le (or_nought sig.stop_price) nought))
        _ _
        (ap
          (λ b.
            b
            && (not (d.is_finite (or_nought sig.stop_price))
                || d.le (or_nought sig.stop_price) nought))
          plain)
        (Does-if_false (is_triggered sig.order_type && not env.supports_trigger) _ _
          (ap (λ b. b && not env.supports_trigger) plain) (send-Does ref_price r s))

  validation-Does :
      (c : OrderCheck F)
      → ((y : X)
          → Before y
          → (validate_order env.switch settings.require_market_hours_support y
              (env.view y)
              c).passed
            ≡ true)
      → Does Before (λ v. v.passed ≡ true) Before 0 (run_validation env settings c)
  unfolding run_validation
  validation-Does c gates = record { at = λ w p. (_, refl, gates w.outside p, p, omega arith) }

  with_risk-Does :
      (r : OrderRecord F)
      → Ours risk_check_pending r
      → Sends Before (with_risk env settings sig size account sig.price r g.trade_risk)
  unfolding with_risk moved_to
  with_risk-Does r (s, same) = Does-then _ _ (validation-Does _ g.gates) (λ v passed.
      Does-if_true v.passed _ _ passed (
        Does-then _ _
          (Does-lift {Q = Ours risk_approved} _ _
            (transition_moves r risk_approved "all gates passed" false (rw s refl)) (refl, same))
          (λ r' ours.
            Does-then _ _ (Does-save env g.saves r' ours.1)
              (λ _ _. with_trigger-Does sig.price r' ours))))

  with_price-Does :
      (r : OrderRecord F)
      → Ours risk_check_pending r
      → Sends Before (with_price env settings sig size account r sig.price)
  unfolding with_price with_risk_of
  with_price-Does r s =
      subst (λ m. Sends Before (with_risk_of env settings sig size account sig.price r m))
        (sym g.risked) (with_risk-Does r s)

  priced_by_limit :
      (b c : Bool) (m : Exec F X F) (price : F) (e : Exn)
      → b ≡ false
      → c ≡ true
      → Does {F = F} Before
          (λ p. p ≡ ok price)
          Before
          0
          (attempt (if b then m else (if c then pure price else raise e)))
  unfolding attempt pure
  priced_by_limit true c m price e h k = ground arith
  priced_by_limit false true m price e h k = record { at = λ w p. (_, refl, refl, p, omega arith) }
  priced_by_limit false false m price e h k = ground arith

  price-Does :
      Does Before (λ p. p ≡ ok sig.price) Before 0 (attempt (resolve_reference_price env sig))
  unfolding resolve_reference_price
  price-Does =
      priced_by_limit (is_market_priced sig.order_type) (is_usable sig.price) _ sig.price _
        (ap is_market_priced g.is_limit) g.usable

  -- The state after the reservation.
  abbrev reserved_in : X
  reserved_in = (env.reserve (new_record env settings sig size) x).1

  blocking-Does :
      Does {F = F}
        (λ y. y ≡ reserved_in)
        (λ o. o ≡ none)
        (λ y. y ≡ reserved_in)
        0
        (blocking_record_for env sig)
  unfolding blocking_record_for
  blocking-Does =
      Does-then _ _
        (Does-ask {Q = λ rs. find_blocking sig rs ≡ none} env.list_open (λ y here. (
          g.open_orders,
          subst (λ z. env.list_open z ≡ ok g.open_orders) (sym here) g.listed,
          g.unblocked,
        )))
        (λ rs e. Does-pure _ e)

  submit_reserved-Does :
      (r : OrderRecord F)
      → Ours intent_created r
      → Sends (λ y. y ≡ reserved_in) (submit_reserved env settings sig size account r)
  unfolding submit_reserved moved_to priced
  submit_reserved-Does r (s, same) = Does-then _ _ blocking-Does (elim [
    | none ↦ λ e.
        Does-weaken _ (λ y here. subst Before (sym here) g.begins)
          (Does-then _ _
            (Does-lift {Q = Ours risk_check_pending} _ _
              (transition_moves r risk_check_pending "running gates" false (rw s refl))
              (refl, same))
            (λ r' ours.
              Does-then _ _ (Does-then _ _ (Does-save env g.saves r' ours.1) (λ _ _. price-Does))
                (λ price e'.
                  subst (λ p. Sends Before (priced env settings sig size account r' p)) (sym e')
                    (with_price-Does (record r' { reference_price = sig.price }) ours))))
    | some b ↦ λ e. ground arith
  ])

  reserve_runs :
      (r : OrderRecord F) (w : World F X)
      → (env.reserve r w.outside).0 ≡ ok true
      → reserve_record env r w ≡ (ok true, (reserve_record env r w).1)
  unfolding reserve_record call
  reserve_runs r w won = ap (λ (m : Result Bool). (m, (reserve_record env r w).1)) won

  reserve_places :
      (r : OrderRecord F) (w : World F X) → places (reserve_record env r w).1.calls ≡ places w.calls
  unfolding reserve_record call
  reserve_places r w =
      places-append w.calls ((reserve_call r, is_ok (env.reserve r w.outside).0) ∷ []) ∙ omega arith

  at_reserved :
      (r : OrderRecord F) (w : World F X)
      → w.outside ≡ x
      → (reserve_record env r w).1.outside ≡ (env.reserve r x).1
  unfolding reserve_record call
  at_reserved r w here = ap (λ y. (env.reserve r y).1) here

  new_record-Ours : Ours intent_created (new_record env settings sig size)
  unfolding new_record
  new_record-Ours = (refl, refl)

  -- A LIMIT order that nothing stands against is sent: `submit_order` places exactly one order and
  -- returns the id that the broker answered. Nothing stands against it if the process may trade
  -- live, the reservation succeeds, no order that is open then is in UNKNOWN for the symbol and
  -- strategy, the limit price is usable, the trade has a risk, and some property holds after the
  -- reservation under which the writes of the order's own records return and keep it, all the gates
  -- pass, and the broker accepts the order with an id that is not empty; and, after that, such writes
  -- return.
  pub submit_order_sent :
      (w : World F X)
      → w.outside ≡ x
      → ((submit_order env settings sig size account w).0 ≡ ok (some g.order_id))
        × (places (submit_order env settings sig size account w).1.calls ≡ places w.calls + 1)
  unfolding submit_order
  submit_order_sent w here =
      let r = new_record env settings sig size in
      let v = (reserve_record env r w).1 in
      let reserved = subst (λ y. (env.reserve r y).0 ≡ ok true) (sym here) g.reserved in
      let run : submit_order env settings sig size account w
          ≡ submit_reserved env settings sig size account r v =
        bind_ok (lift (require_eligible_for_live env) >> reserve_record env r) _ (
          eligible_then env settings (kept_nothing env) (require_eligible_for_live env) r w
            g.eligible
          ∙ reserve_runs r w reserved) in
      let (o, e, same, _, count) =
        (submit_reserved-Does r new_record-Ours).at v (at_reserved r w here) in
      (
        ap (λ (p : Result (Option String) × World F X). p.0) run ∙ e ∙ ap ok same,
        ap (λ (p : Result (Option String) × World F X). places p.1.calls) run
            ∙ count
            ∙ ap (λ n. n + 1) (reserve_places r w),
      )
