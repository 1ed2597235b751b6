-- ===== src/Safety/Validate.antt =====
-- `validate_order` of safety.py: every gate runs, and one that raises anything fails the order.
use mathlib.Core.List.{append-nil, append_assoc}
use algo_dollar.Base.{
  sym, ◌∙◌, String, ◌<>◌, ◌≡◌, Bool, true, false, ◌&&◌, Option, none, some, List, [], ◌∷◌, ◌++◌, ℤ,
  is_nonempty, if◌then◌else◌, arith,
}
use algo_dollar.Errors.{Exn, Result, ok, err, is_safety_error, message, is_ok}
use algo_dollar.Double.{Double}
use algo_dollar.Safety.KillSwitch.{KillStore, check_kill_switch}
use algo_dollar.Safety.Gates.{
  BrokerView, HeldPosition, check_broker_connectivity, check_market_status, check_data_freshness,
  check_instrument_validity, check_order_validity, check_capital_availability, check_position_limit,
  check_single_stock_exposure, check_risk_limit, check_daily_loss_limit, check_sector_exposure,
}
use algo_dollar.Safety.Duplicates.{OpenOrder, check_duplicate_order}

-- The arguments of `validate_order` but for the broker.
pub record OrderCheck (F : Type 0) : Type 0 where
  pub symbol : String
  pub exchange : String
  pub qty : ℤ
  pub price : F
  pub trade_value : F
  pub trade_risk : F
  pub strategy : String
  pub current_positions : List HeldPosition
  pub open_orders : List OpenOrder
  pub daily_risk_used : F
  pub max_daily_risk : F
  pub available_cash : F
  pub total_portfolio : F
  pub max_positions : ℤ
  pub max_single_stock_pct : F
  pub sector : Option String
  pub sector_value : F
  pub max_sector_pct : F
  pub realised_pnl_today : F
  pub max_daily_loss : F
  pub client_order_id : Option String
  pub max_qty : Option ℤ
  pub max_price : Option F
  pub max_notional : Option F
  pub net_trade_value : Option F
  pub closing_removes_position : Bool

pub record ValidationResult : Type 0 where
  pub passed : Bool
  pub failed_checks : List String

abbrev pub Gate : Type 0
Gate = String × Result (Unit {0})

-- `if sector:`
abbrev pub has_sector : Option String → Bool
has_sector none = false
has_sector (some s) = is_nonempty s

-- The two handlers of the loop: a safety error, and any other exception.
abbrev pub failure_text : String → Exn → String
failure_text name e =
    if is_safety_error e
    then name <> (": " <> message e)
    else name <> (": unexpected error, failing closed (" <> (message e <> ")"))

abbrev pub after_gate : ValidationResult → String → Result (Unit {0}) → ValidationResult
after_gate r name (ok _) = r
after_gate r name (err e) = record {
  passed = false;
  failed_checks = r.failed_checks ++ failure_text name e ∷ [];
}

-- `for name, coro in checks:`
unfoldable pub run_gates : List Gate → ValidationResult → ValidationResult
run_gates [] r = r
run_gates ((name, outcome) ∷ gates) r = run_gates gates (after_gate r name outcome)

module _ {F K : Type 0} ⦃d : Double F⦄ (ks : KillStore K) (require : Bool) where
  -- `checks`, in order
  unfoldable pub gates_of : K → BrokerView → OrderCheck F → List Gate
  gates_of k b c =
      ("kill_switch", check_kill_switch ks k)
      ∷ ("broker_connectivity", check_broker_connectivity b)
      ∷ ("market_status", check_market_status require b)
      ∷ ("data_freshness", check_data_freshness require b c.symbol)
      ∷ ("instrument_validity", check_instrument_validity c.symbol c.exchange)
      ∷ ("order_validity", check_order_validity c.qty c.price c.max_qty c.max_price c.max_notional)
      ∷ ("capital_availability", check_capital_availability c.trade_value c.available_cash)
      ∷ (
        "position_limit",
        check_position_limit c.current_positions c.max_positions
            (if c.closing_removes_position then some c.symbol else none),
      )
      ∷ (
        "single_stock_exposure",
        check_single_stock_exposure c.trade_value c.total_portfolio c.max_single_stock_pct
            c.net_trade_value,
      )
      ∷ ("risk_limit", check_risk_limit c.trade_risk c.daily_risk_used c.max_daily_risk)
      ∷ ("daily_loss_limit", check_daily_loss_limit c.realised_pnl_today c.max_daily_loss)
      ∷ (
        "duplicate_order",
        check_duplicate_order c.symbol c.strategy c.open_orders c.client_order_id,
      )
      ∷ (if has_sector c.sector
          then (
            "sector_exposure",
            check_sector_exposure c.sector_value c.total_portfolio c.max_sector_pct,
          )
            ∷ []
          else [])

  unfoldable pub validate_order : K → BrokerView → OrderCheck F → ValidationResult
  unfolding run_gates gates_of
  validate_order k b c = run_gates (gates_of k b c) (record { passed = true; failed_checks = [] })

-- Every gate has passed.
abbrev pub all_passed : List Gate → Bool
all_passed [] = true
all_passed ((_, outcome) ∷ gates) = is_ok outcome && all_passed gates

abbrev pub failures : List Gate → List String
failures [] = []
failures ((name, ok _) ∷ gates) = failures gates
failures ((name, err e) ∷ gates) = failure_text name e ∷ failures gates

run_gates_lem :
    (gates : List Gate) (r : ValidationResult)
    → ((run_gates gates r).passed ≡ (r.passed && all_passed gates))
      × ((run_gates gates r).failed_checks ≡ r.failed_checks ++ failures gates)
unfolding run_gates
run_gates_lem [] r = (ground arith, sym (append-nil r.failed_checks))
run_gates_lem ((name, ok tt) ∷ gates) r = run_gates_lem gates r
run_gates_lem ((name, err e) ∷ gates) r =
    let (passed, reasons) = run_gates_lem gates (after_gate r name (err e)) in
    (
      ground arith,
      reasons ∙ append_assoc r.failed_checks (failure_text name e ∷ []) (failures gates),
    )

module _ {F K : Type 0} ⦃d : Double F⦄ (ks : KillStore K) (require : Bool) where
  -- The order passes exactly if every gate returned, whatever the others raised; and the reasons
  -- that are reported are those of the gates that raised, all of them and in order.
  pub validate_order_lem :
      (k : K) (b : BrokerView) (c : OrderCheck F)
      → let r = validate_order ks require k b c in
        (r.passed ≡ all_passed (gates_of ks require k b c))
        × (r.failed_checks ≡ failures (gates_of ks require k b c))
  unfolding validate_order
  validate_order_lem k b c = run_gates_lem (gates_of ks require k b c) _
