-- ===== src/Safety/Gates.antt =====
-- The gates of `ExecutionSafety` (safety.py), but for the kill switch and the duplicate check. A gate
-- that raises is `err`. An `int` is an integer and a `float` a `Double`, so that the tests for other
-- types of value do not arise; the messages leave out the numbers.
use algo_dollar.Base.{
  ℕ, String, Bool, false, not, ◌&&◌, ◌||◌, Option, none, some, List, [], ◌∷◌, ℤ, pos, leb_ℤ, ltb_ℤ,
  eq_ℤ, length, keep_if, codes, codes_eq, upper, is_ascii, is_nonempty, if◌then◌else◌,
}
use algo_dollar.Errors.{
  Result, ◌>>=◌, ◌>>◌, raise_if, safety_check, market_closed, stale_data, daily_loss_limit,
}
use algo_dollar.Double.{Double, nought}

-- What the gates read off a broker. `none` is a method that the broker does not have.
pub record BrokerView : Type 0 where
  pub is_connected : Result Bool
  pub is_market_open : Option (Result Bool)
  -- `is_stale_tick(symbol, max_age_seconds=30.0)`
  pub is_stale_tick : Option (String → Result Bool)

unfoldable pub check_broker_connectivity : BrokerView → Result (Unit {0})
check_broker_connectivity b =
    b.is_connected >>= λ c. raise_if (not c) (safety_check "Broker is not connected.")

unfoldable pub check_market_status : (require : Bool) → BrokerView → Result (Unit {0})
check_market_status require b = elim b.is_market_open [
  | some answer ↦ (answer >>= λ o. raise_if (not o) (market_closed "Market is currently closed."))
  | none ↦ raise_if require (market_closed "broker cannot report market hours; failing closed.")
]

unfoldable pub check_data_freshness : (require : Bool) → BrokerView → String → Result (Unit {0})
check_data_freshness require b symbol = elim b.is_stale_tick [
  | some is_stale ↦ (is_stale symbol >>= λ s. raise_if s (stale_data "Market data is too old."))
  | none ↦ raise_if require (stale_data "broker cannot report tick freshness; failing closed.")
]

abbrev pub valid_exchanges : List String
valid_exchanges = "NSE" ∷ "BSE" ∷ "NFO" ∷ "BFO" ∷ "MCX" ∷ "CDS" ∷ []

abbrev pub spelled_in : List ℕ → List String → Bool
spelled_in cs [] = false
spelled_in cs (n ∷ ns) = codes_eq (codes n) cs || spelled_in cs ns

unfoldable pub check_instrument_validity : (symbol exchange : String) → Result (Unit {0})
check_instrument_validity symbol exchange =
    raise_if (not (is_nonempty symbol) || not (is_ascii symbol)) (safety_check "Invalid symbol")
    >> raise_if (not (is_nonempty exchange)) (safety_check "Invalid exchange")
    >> raise_if (not (spelled_in (upper (codes exchange)) valid_exchanges))
        (safety_check "Unknown exchange")

-- An entry of `current_positions`.
pub record HeldPosition : Type 0 where
  pub symbol : String
  pub quantity : ℤ

-- `str(a).upper() == str(b).upper()`
abbrev pub same_symbol : String → String → Bool
same_symbol a b = codes_eq (upper (codes a)) (upper (codes b))

-- The positions that count: not empty, and not the one that the order closes.
unfoldable pub counts_as_open : Option String → HeldPosition → Bool
counts_as_open none p = not (eq_ℤ p.quantity (pos 0))
counts_as_open (some closing) p =
    not (eq_ℤ p.quantity (pos 0)) && not (same_symbol p.symbol closing)

unfoldable pub check_position_limit : List HeldPosition → ℤ → Option String → Result (Unit {0})
unfolding counts_as_open
check_position_limit positions max_positions closing_symbol =
    raise_if
      (leb_ℤ max_positions (pos (length (keep_if (counts_as_open closing_symbol) positions))))
      (safety_check "Position limit reached")

abbrev pub over_quantity : ℤ → Option ℤ → Bool
over_quantity qty none = false
over_quantity qty (some limit) = ltb_ℤ limit qty

module _ {F : Type 0} ⦃d : Double F⦄ where
  -- `_require_finite`, of one value
  abbrev pub require_finite : F → Result (Unit {0})
  require_finite x = raise_if (not (d.is_finite x)) (safety_check "not finite (NaN/inf)")

  -- The value that is held against the limit: the net one, if it is given and not negative.
  abbrev pub exposure_value : F → Option F → F
  exposure_value trade_value none = trade_value
  exposure_value trade_value (some net) = if d.le nought net then net else trade_value

  unfoldable pub check_single_stock_exposure :
      (trade_value total_portfolio max_pct : F) → (net_trade_value : Option F) → Result (Unit {0})
  check_single_stock_exposure trade_value total_portfolio max_pct net_trade_value =
      require_finite trade_value
      >> require_finite total_portfolio
      >> raise_if (d.le total_portfolio nought) (safety_check "Portfolio value unknown")
      >> raise_if
          (d.lt max_pct (d.div (exposure_value trade_value net_trade_value) total_portfolio))
          (safety_check "Single-stock exposure over the limit")

  unfoldable pub check_sector_exposure :
      (sector_value total_portfolio max_pct : F) → Result (Unit {0})
  check_sector_exposure sector_value total_portfolio max_pct =
      require_finite sector_value
      >> require_finite total_portfolio
      >> raise_if (d.le total_portfolio nought) (safety_check "Portfolio value unknown")
      >> raise_if (d.lt max_pct (d.div sector_value total_portfolio))
          (safety_check "Sector exposure over the limit")

  unfoldable pub check_risk_limit :
      (trade_risk daily_risk_used max_daily_risk : F) → Result (Unit {0})
  check_risk_limit trade_risk daily_risk_used max_daily_risk =
      require_finite trade_risk
      >> require_finite daily_risk_used
      >> require_finite max_daily_risk
      >> raise_if (d.lt trade_risk nought) (safety_check "Negative trade risk")
      >> raise_if (d.lt max_daily_risk (d.add daily_risk_used trade_risk))
          (safety_check "Daily risk limit would be breached")

  -- `-abs(x)` is 0 less the absolute value.
  unfoldable pub check_daily_loss_limit :
      (realised_pnl_today max_daily_loss : F) → Result (Unit {0})
  check_daily_loss_limit realised_pnl_today max_daily_loss =
      require_finite realised_pnl_today
      >> require_finite max_daily_loss
      >> raise_if (d.le max_daily_loss nought)
          (daily_loss_limit "max_daily_loss must be a positive amount")
      >> raise_if (d.le realised_pnl_today (d.sub nought (d.abs max_daily_loss)))
          (daily_loss_limit "Daily loss limit breached")

  unfoldable pub check_capital_availability :
      (required_capital available_cash : F) → Result (Unit {0})
  check_capital_availability required_capital available_cash =
      require_finite required_capital
      >> require_finite available_cash
      >> raise_if (d.le required_capital nought) (safety_check "Required capital is not positive")
      >> raise_if (d.lt available_cash required_capital) (safety_check "Insufficient capital")

  -- `limit is not None and value > limit`
  abbrev pub over_limit : F → Option F → Bool
  over_limit x none = false
  over_limit x (some limit) = d.lt limit x

  -- `check_order_validity`, at its default minimum of 1
  unfoldable pub check_order_validity :
      (qty : ℤ) (price : F) (max_qty : Option ℤ) (max_price max_notional : Option F)
      → Result (Unit {0})
  check_order_validity qty price max_qty max_price max_notional =
      require_finite price
      >> raise_if (not (d.is_exact qty)) (safety_check "Order qty is not a whole number.")
      >> raise_if (ltb_ℤ qty (pos 1)) (safety_check "Order qty < minimum")
      >> raise_if (d.le price nought) (safety_check "Order price is not positive")
      >> raise_if (over_quantity qty max_qty) (safety_check "Fat-finger: qty > max")
      >> raise_if (over_limit price max_price) (safety_check "Fat-finger: price > max")
      >> raise_if (over_limit (d.mul (d.of_ℤ qty) price) max_notional)
          (safety_check "Fat-finger: notional > max")
