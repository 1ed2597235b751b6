-- ===== src/Orders/Costs.antt =====
-- `calculate_costs` and `_compute_trade_risk` of order_manager.py.
use algo_dollar.Base.{String, Bool, true, false, ◌&&◌, ℤ, codes, codes_eq, upper, if◌then◌else◌}
use algo_dollar.Errors.{Result, ok, err, safety_check}
use algo_dollar.Double.{Double, nought, is_truthy, min_double}
use algo_dollar.Lifecycle.Record.{Costs}
use algo_dollar.Orders.Broker.{TransactionType, buy, sell, Product, mis}

abbrev pub is_mis : Product → Bool
is_mis mis = true
is_mis _ = false

abbrev pub is_buy : TransactionType → Bool
is_buy buy = true
is_buy sell = false

module _ {F : Type 0} ⦃d : Double F⦄ where
  -- The rates, each a literal of the source.
  abbrev brokerage_intraday_rate : F
  brokerage_intraday_rate = d.literal 3000

  abbrev brokerage_intraday_max : F
  brokerage_intraday_max = d.literal 200_000_000

  abbrev stt_intraday_sell : F
  stt_intraday_sell = d.literal 2500

  abbrev stt_delivery : F
  stt_delivery = d.literal 10_000

  abbrev nse_exchange_charge : F
  nse_exchange_charge = d.literal 322

  abbrev bse_exchange_charge : F
  bse_exchange_charge = d.literal 375

  abbrev gst_rate : F
  gst_rate = d.literal 1_800_000

  abbrev stamp_duty_buy : F
  stamp_duty_buy = d.literal 300

  abbrev sebi_charge : F
  sebi_charge = d.literal 10

  unfoldable pub calculate_costs :
      (qty : ℤ) (price : F) → TransactionType → Product → (exchange : String) → Costs F
  calculate_costs qty price txn product exchange =
      let turnover = d.mul (d.of_ℤ qty) price in
      let brokerage : F =
        if is_mis product
        then min_double (d.mul brokerage_intraday_rate turnover) brokerage_intraday_max
        else nought in
      let stt : F =
        if is_mis product
        then (if is_buy txn then nought else d.mul stt_intraday_sell turnover)
        else d.mul stt_delivery turnover in
      let rate : F =
        if codes_eq (upper (codes exchange)) (codes "NSE")
        then nse_exchange_charge
        else bse_exchange_charge in
      let charges = d.mul rate turnover in
      let sebi = d.mul sebi_charge turnover in
      let gst = d.mul gst_rate (d.add (d.add brokerage charges) sebi) in
      let stamp : F = if is_buy txn then d.mul stamp_duty_buy turnover else nought in
      let total = d.add (d.add (d.add (d.add (d.add brokerage stt) charges) sebi) gst) stamp in
      record {
        brokerage = d.round4 brokerage;
        stt = d.round4 stt;
        exchange_charges = d.round4 charges;
        sebi = d.round4 sebi;
        gst = d.round4 gst;
        stamp_duty = d.round4 stamp;
        total = d.round4 total;
      }

  -- `stop_price and math.isfinite(stop_price) and stop_price > 0`
  abbrev pub has_stop : F → Bool
  has_stop stop_price = is_truthy stop_price && (d.is_finite stop_price && d.lt nought stop_price)

  unfoldable pub compute_trade_risk :
      (require_stop : Bool) (qty : ℤ) (entry_price stop_price : F) → Result F
  compute_trade_risk require_stop qty entry_price stop_price =
      let notional = d.mul (d.of_ℤ qty) entry_price in
      if has_stop stop_price
      then (let risk = d.mul (d.of_ℤ qty) (d.abs (d.sub entry_price stop_price)) in
          if d.le risk nought
          then err (safety_check "Stop price equals entry: degenerate risk.")
          else ok (min_double risk notional))
      else if require_stop
      then err (safety_check "No stop price defined and require_stop=True")
      else ok notional
