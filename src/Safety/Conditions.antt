-- ===== src/Safety/Conditions.antt =====
-- The conditions of the gates of `validate_order` (safety.py), written out.
use algo_dollar.Base.{
  String, ◌≡◌, Bool, true, false, ◌&&◌, Option, none, some, pos, leb_ℤ, ltb_ℤ, length, keep_if,
  codes, upper, is_ascii, is_nonempty, if◌then◌else◌, All,
}
use algo_dollar.Errors.{Result, ok}
use algo_dollar.Double.{Double, nought}
use algo_dollar.Safety.KillSwitch.{KillStore, StoreValue, is_engaged}
use algo_dollar.Safety.Gates.{
  BrokerView, counts_as_open, exposure_value, over_limit, over_quantity, spelled_in,
  valid_exchanges,
}
use algo_dollar.Safety.Duplicates.{IsClear}
use algo_dollar.Safety.Validate.{OrderCheck, has_sector}

-- The market is open, or the broker cannot say and the gate was told not to insist.
abbrev pub MarketAllows : Bool → Option (Result Bool) → Type 0
MarketAllows require none = require ≡ false
MarketAllows require (some answer) = answer ≡ ok true

abbrev pub TickAllows : Bool → Option (String → Result Bool) → String → Type 0
TickAllows require none symbol = require ≡ false
TickAllows require (some is_stale) symbol = is_stale symbol ≡ ok false

-- The conditions of the numbers of an order.
pub record HasSoundNumbers {F : Type 0} ⦃d : Double F⦄ (c : OrderCheck F) : Type 0 where
  pub price_finite : d.is_finite c.price ≡ true
  pub price_positive : d.le c.price nought ≡ false
  pub qty_exact : d.is_exact c.qty ≡ true
  pub qty_positive : ltb_ℤ c.qty (pos 1) ≡ false
  pub qty_capped : over_quantity c.qty c.max_qty ≡ false
  pub price_capped : over_limit c.price c.max_price ≡ false
  pub notional_capped : over_limit (d.mul (d.of_ℤ c.qty) c.price) c.max_notional ≡ false
  pub value_finite : d.is_finite c.trade_value ≡ true
  pub value_positive : d.le c.trade_value nought ≡ false
  pub cash_finite : d.is_finite c.available_cash ≡ true
  pub affordable : d.lt c.available_cash c.trade_value ≡ false

-- The conditions of the account's limits.
pub record IsWithinLimits {F : Type 0} ⦃d : Double F⦄ (c : OrderCheck F) : Type 0 where
  pub portfolio_finite : d.is_finite c.total_portfolio ≡ true
  pub portfolio_positive : d.le c.total_portfolio nought ≡ false
  pub exposure_capped :
      d.lt c.max_single_stock_pct
        (d.div (exposure_value c.trade_value c.net_trade_value) c.total_portfolio)
      ≡ false
  pub risk_finite : d.is_finite c.trade_risk ≡ true
  pub used_finite : d.is_finite c.daily_risk_used ≡ true
  pub budget_finite : d.is_finite c.max_daily_risk ≡ true
  pub risk_nonneg : d.lt c.trade_risk nought ≡ false
  pub risk_capped : d.lt c.max_daily_risk (d.add c.daily_risk_used c.trade_risk) ≡ false
  pub pnl_finite : d.is_finite c.realised_pnl_today ≡ true
  pub loss_limit_finite : d.is_finite c.max_daily_loss ≡ true
  pub loss_limit_positive : d.le c.max_daily_loss nought ≡ false
  pub loss_capped : d.le c.realised_pnl_today (d.sub nought (d.abs c.max_daily_loss)) ≡ false

module _ {F : Type 0} ⦃d : Double F⦄ where
  -- The exposure to the sector, if the order names one.
  abbrev pub SectorAllows : OrderCheck F → Type 0
  SectorAllows c =
      has_sector c.sector ≡ true
      → (d.is_finite c.sector_value ≡ true)
        × (d.is_finite c.total_portfolio ≡ true)
        × (d.le c.total_portfolio nought ≡ false)
        × (d.lt c.max_sector_pct (d.div c.sector_value c.total_portfolio) ≡ false)

module _ {F K : Type 0} ⦃d : Double F⦄ (ks : KillStore K) (require : Bool) where
  pub record IsPermitted (k : K) (b : BrokerView) (c : OrderCheck F) : Type 0 where
    pub switch_off : (v : Option StoreValue) × (ks.get k ≡ ok v) × (is_engaged v ≡ false)
    pub connected : b.is_connected ≡ ok true
    pub market_open : MarketAllows require b.is_market_open
    pub tick_fresh : TickAllows require b.is_stale_tick c.symbol
    pub symbol_valid : (is_nonempty c.symbol && is_ascii c.symbol) ≡ true
    pub exchange_valid :
        (is_nonempty c.exchange && spelled_in (upper (codes c.exchange)) valid_exchanges) ≡ true
    pub numbers : HasSoundNumbers c
    pub slot_free :
        leb_ℤ c.max_positions (
          pos (
            length (
              keep_if
                (counts_as_open (if c.closing_removes_position then some c.symbol else none))
                c.current_positions)))
        ≡ false
    pub limits : IsWithinLimits c
    pub no_duplicate : All (IsClear c.symbol c.strategy c.client_order_id) c.open_orders
    pub sector : SectorAllows c
