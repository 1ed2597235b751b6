-- ===== src/Orders/Submit.antt =====
-- `submit_order` of order_manager.py, in the stages that its comments number.
pub mod Sends
pub mod Stages
pub mod Once
pub mod Refused
pub mod Accepted
pub mod Sent
use algo_dollar.Base.{
  String, ◌<>◌, Bool, true, false, not, ◌&&◌, ◌||◌, Option, none, some, List, [], ◌∷◌, ◌++◌, ℤ, pos,
  min_ℤ, ltb_ℤ, codes, codes_eq, lower, if◌then◌else◌,
}
use algo_dollar.Errors.{Exn, Result, ok, err, message, is_safety_error, order_blocked, safety_check}
use algo_dollar.Double.{Double, nought, max_double, or_nought}
use algo_dollar.Lifecycle.States.{
  OrderState, intent_created, risk_check_pending, risk_approved, risk_rejected, submitted,
  acknowledged, unknown,
}
use algo_dollar.Lifecycle.Record.{OrderRecord, HistoryEntry, Costs, costed, refused, transition}
use algo_dollar.Safety.Gates.{HeldPosition, same_symbol}
use algo_dollar.Safety.Duplicates.{OpenOrder}
use algo_dollar.Safety.Validate.{OrderCheck, ValidationResult, validate_order}
use algo_dollar.Orders.Broker.{
  PlaceArgs, txn_value, order_type_value, product_value, is_market_priced, is_triggered,
}
use algo_dollar.Orders.Costs.{calculate_costs, compute_trade_risk, is_buy}
use algo_dollar.Orders.Env.{Env, Settings}
use algo_dollar.Orders.Exec.{
  World, Exec, pure, raise, lift, attempt, reserve_record, save_record, place_order, ◌>>=◌, ◌>>◌,
}
use algo_dollar.Orders.Fill.{apply_any_immediate_fill}
use algo_dollar.Orders.Pricing.{Signal, resolve_reference_price}
use algo_dollar.Orders.Resolve.{
  handle_existing_intent, blocking_record_for, resolve_unknown, present_id,
}

-- The keyword arguments of `submit_order`.
pub record Account (F : Type 0) : Type 0 where
  pub daily_risk_used : F
  pub max_daily_risk : F
  pub available_cash : F
  pub total_portfolio : F
  pub current_positions : List HeldPosition
  pub open_orders : List OpenOrder
  pub max_positions : ℤ
  pub sector : Option String
  pub sector_value : F
  pub realised_pnl_today : F
  pub max_daily_loss : F

-- `"; ".join(texts)`
unfoldable pub join_reasons : List String → String
join_reasons [] = ""
join_reasons (t ∷ []) = t
join_reasons (t ∷ u ∷ ts) = t <> ("; " <> join_reasons (u ∷ ts))

-- The first position in the symbol decides how much of it a sell closes.
unfoldable pub closing_quantity : String → ℤ → List HeldPosition → ℤ
closing_quantity symbol size [] = pos 0
closing_quantity symbol size (p ∷ ps) =
    if same_symbol p.symbol symbol
    then (if ltb_ℤ (pos 0) p.quantity then min_ℤ size p.quantity else pos 0)
    else closing_quantity symbol size ps

module _ {F X : Type 0} (env : Env F X) where
  -- `_is_paper_broker`
  unfoldable pub is_paper_broker : Bool
  is_paper_broker = env.is_paper_class || elim env.trading_mode [
    | err e ↦ false
    | ok mode ↦ codes_eq (lower (codes mode)) (codes "paper")
  ]

  -- `_require_eligible_for_live`
  unfoldable pub require_eligible_for_live : Result (Unit {0})
  unfolding is_paper_broker
  require_eligible_for_live = if is_paper_broker then ok tt else env.require_live_eligible

  -- `_log_rejected_order`
  unfoldable pub log_rejected_order : OrderRecord F → List String → Exec F X (Unit {0})
  log_rejected_order r reasons =
      save_record env (record r { history = r.history ++ refused reasons ∷ [] })

  -- `_persist_order`
  unfoldable pub persist_order : OrderRecord F → Costs F → Exec F X (Unit {0})
  persist_order r costs = save_record env (record r { history = r.history ++ costed costs ∷ [] })

  -- A refusal: the record moves to RISK_REJECTED and is kept with its reasons.
  unfoldable pub refuse : OrderRecord F → String → List String → Exec F X (Option String)
  unfolding log_rejected_order
  refuse r reason reasons = lift (transition r risk_rejected reason false) >>= λ r'.
      log_rejected_order r' reasons >> pure none

module _ {F X : Type 0} ⦃d : Double F⦄ (env : Env F X) (settings : Settings F) where
  -- The record of a new intent.
  unfoldable pub new_record : Signal F → ℤ → OrderRecord F
  new_record sig size = record {
    client_order_id = sig.client_order_id;
    symbol = sig.symbol;
    exchange = sig.exchange;
    side = txn_value sig.txn_type;
    qty = size;
    order_type = order_type_value sig.order_type;
    product = product_value sig.product;
    strategy = sig.strategy;
    limit_price = or_nought sig.price;
    trigger_price = or_nought sig.stop_price;
    reference_price = nought;
    state = intent_created;
    broker_order_id = none;
    filled_qty = pos 0;
    avg_fill_price = nought;
    reason = "";
    intent_kind = sig.intent_kind;
    history = [];
    applied_fill_ids = [];
  }

  abbrev closing_of : Signal F → ℤ → Account F → ℤ
  closing_of sig size account =
      if is_buy sig.txn_type
      then pos 0
      else closing_quantity sig.symbol size account.current_positions

  -- The arguments that `submit_order` hands to `validate_order`.
  unfoldable pub check_of : Signal F → ℤ → Account F → (ref_price trade_risk : F) → OrderCheck F
  unfolding closing_quantity
  check_of sig size account ref_price trade_risk =
      let closing = closing_of sig size account in
      let trade_value = d.mul (d.of_ℤ size) ref_price in
      record {
        symbol = sig.symbol;
        exchange = sig.exchange;
        qty = size;
        price = ref_price;
        trade_value = trade_value;
        trade_risk = trade_risk;
        strategy = sig.strategy;
        current_positions = account.current_positions;
        open_orders = account.open_orders;
        daily_risk_used = account.daily_risk_used;
        max_daily_risk = account.max_daily_risk;
        available_cash = account.available_cash;
        total_portfolio = account.total_portfolio;
        max_positions = account.max_positions;
        max_single_stock_pct = d.literal 1_000_000;
        sector = account.sector;
        sector_value = account.sector_value;
        max_sector_pct = d.literal 3_000_000;
        realised_pnl_today = account.realised_pnl_today;
        max_daily_loss = account.max_daily_loss;
        client_order_id = some sig.client_order_id;
        max_qty = settings.max_qty;
        max_price = settings.max_price;
        max_notional = settings.max_notional;
        net_trade_value =
            some (max_double nought (d.sub trade_value (d.mul (d.of_ℤ closing) ref_price)));
        closing_removes_position = ltb_ℤ (pos 0) closing;
      }

  unfoldable pub run_validation : OrderCheck F → Exec F X ValidationResult
  run_validation c w = (
    ok (
        validate_order env.switch settings.require_market_hours_support w.outside
          (env.view w.outside) c),
    w,
  )

  unfoldable pub place_args : Signal F → ℤ → PlaceArgs F
  place_args sig size = record {
    symbol = sig.symbol;
    exchange = sig.exchange;
    txn_type = sig.txn_type;
    qty = size;
    price = if is_market_priced sig.order_type then nought else or_nought sig.price;
    order_type = sig.order_type;
    product = sig.product;
    tag = sig.client_order_id;
    trigger_price = if is_triggered sig.order_type then some (or_nought sig.stop_price) else none;
  }

  -- What came of the one broker call: no answer and an empty id are ambiguous.
  unfoldable pub after_place : OrderRecord F → Result (Option String) → Exec F X (Option String)
  after_place r (err e) = lift (transition r unknown (message e) false) >>= λ r'.
      save_record env r' >> resolve_unknown env r'
  after_place r (ok answer) =
      if present_id answer
      then (lift (
            transition (record r { broker_order_id = answer }) acknowledged "broker accepted" false)
          >>= λ r'.
              save_record env r' >> apply_any_immediate_fill env r' >> pure r'.broker_order_id)
      else (lift (transition r unknown "empty broker order id" false) >>= λ r'.
          save_record env r' >> resolve_unknown env r')

  -- 5. The durable SUBMITTED, then exactly one broker call.
  unfoldable pub send : Signal F → ℤ → F → OrderRecord F → Exec F X (Option String)
  unfolding after_place persist_order place_args
  send sig size ref_price r = lift (transition r submitted "sending to broker" false) >>= λ r'.
      persist_order env r' (calculate_costs size ref_price sig.txn_type sig.product sig.exchange)
      >> attempt (place_order env (place_args sig size))
      >>= λ outcome. after_place r' outcome

  -- 4. The trigger of a stop order: there, and understood by the broker.
  unfoldable pub with_trigger : Signal F → ℤ → F → OrderRecord F → Exec F X (Option String)
  unfolding send refuse
  with_trigger sig size ref_price r =
      let trigger = or_nought sig.stop_price in
      if is_triggered sig.order_type && (not (d.is_finite trigger) || d.le trigger nought)
      then refuse env r (order_type_value sig.order_type <> " needs a positive stop_price")
          ("trigger_price: missing" ∷ [])
      else if is_triggered sig.order_type && not env.supports_trigger
      then refuse env r "place_order does not accept trigger_price"
          ("trigger_price: place_order does not accept trigger_price" ∷ [])
      else send sig size ref_price r

  -- 3. The safety gates.
  unfoldable pub with_risk :
      Signal F → ℤ → Account F → F → OrderRecord F → F → Exec F X (Option String)
  unfolding with_trigger refuse run_validation check_of
  with_risk sig size account ref_price r trade_risk =
      run_validation (check_of sig size account ref_price trade_risk) >>= λ validation.
      if validation.passed
      then (lift (transition r risk_approved "all gates passed" false) >>= λ r'.
          save_record env r' >> with_trigger sig size ref_price r')
      else refuse env r (join_reasons validation.failed_checks) validation.failed_checks

  -- The risk of the trade, or the reason why it has none.
  unfoldable pub with_risk_of :
      Signal F → ℤ → Account F → F → OrderRecord F → Result F → Exec F X (Option String)
  unfolding with_risk refuse
  with_risk_of sig size account ref_price r (err e) =
      refuse env r (message e) (("trade_risk: " <> message e) ∷ [])
  with_risk_of sig size account ref_price r (ok trade_risk) =
      with_risk sig size account ref_price r trade_risk

  -- 2. The reference price is known.
  unfoldable pub with_price :
      Signal F → ℤ → Account F → OrderRecord F → F → Exec F X (Option String)
  unfolding with_risk_of
  with_price sig size account r ref_price =
      with_risk_of sig size account ref_price r
        (compute_trade_risk settings.require_stop size ref_price sig.stop_price)

  -- `except SafetyCheckError`; any other exception goes on to the caller.
  unfoldable pub priced :
      Signal F → ℤ → Account F → OrderRecord F → Result F → Exec F X (Option String)
  unfolding with_price refuse
  priced sig size account r (err e) =
      if is_safety_error e
      then refuse env r (message e) (("reference_price: " <> message e) ∷ [])
      else raise e
  priced sig size account r (ok ref_price) =
      with_price sig size account (record r { reference_price = ref_price }) ref_price

  -- 1. The intent is reserved.
  unfoldable pub submit_reserved :
      Signal F → ℤ → Account F → OrderRecord F → Exec F X (Option String)
  unfolding priced log_rejected_order
  submit_reserved sig size account r = blocking_record_for env sig >>= λ blocked. elim blocked [
    | some b ↦
        let reason = "blocked by unresolved order " <> b.client_order_id in
        (lift (transition r risk_rejected reason false) >>= λ r'.
        log_rejected_order env r' (r'.reason ∷ [])
        >> raise (order_blocked ("UNKNOWN: " <> b.client_order_id)))
    | none ↦
        (lift (transition r risk_check_pending "running gates" false) >>= λ r'.
        save_record env r' >> attempt (resolve_reference_price env sig) >>= λ price.
        priced sig size account r' price)
  ]

  unfoldable pub submit_order : Signal F → ℤ → Account F → Exec F X (Option String)
  unfolding submit_reserved new_record require_eligible_for_live
  submit_order sig size account =
      lift (require_eligible_for_live env)
      >> reserve_record env (new_record sig size)
      >>= λ reserved.
          if reserved
          then submit_reserved sig size account (new_record sig size)
          else handle_existing_intent env sig.client_order_id
