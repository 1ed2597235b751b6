-- ===== src/Safety/Permits.antt =====
-- What an order that passes `validate_order` (safety.py) is known to satisfy, gate by gate.
use algo_dollar.Base.{
  String, sym, ◌∙◌, ◌≡◌, refl, Bool, true, false, not, ◌&&◌, ◌||◌, ◌↔◌, Option, List, [], ◌∷◌, ℤ,
  pos, leb_ℤ, length, keep_if, codes, upper, is_ascii, is_nonempty, if◌then◌else◌, arith,
  Bool-cases, &&_true, inl, inr, All,
}
use algo_dollar.Errors.{Result, ok, is_ok, ◌>>◌, raise_if, safety_check}
use algo_dollar.Double.{Double}
use algo_dollar.Safety.KillSwitch.{KillStore, check_kill_switch, check_kill_switch_iff}
use algo_dollar.Safety.Gates.{
  BrokerView, HeldPosition, check_broker_connectivity, check_market_status, check_data_freshness,
  check_instrument_validity, check_order_validity, check_capital_availability, check_position_limit,
  check_single_stock_exposure, check_risk_limit, check_daily_loss_limit, check_sector_exposure,
  counts_as_open, spelled_in, valid_exchanges,
}
use algo_dollar.Safety.Duplicates.{check_duplicate_order_iff}
use algo_dollar.Safety.Validate.{
  OrderCheck, Gate, validate_order, gates_of, all_passed, has_sector, validate_order_lem,
}
use algo_dollar.Safety.Conditions.{
  MarketAllows, TickAllows, HasSoundNumbers, IsWithinLimits, SectorAllows, IsPermitted,
}

connectivity_iff :
    (b : BrokerView) → (is_ok (check_broker_connectivity b) ≡ true) ↔ (b.is_connected ≡ ok true)
unfolding check_broker_connectivity
connectivity_iff b = ground arith

market_iff :
    (require : Bool) (b : BrokerView)
    → (is_ok (check_market_status require b) ≡ true) ↔ MarketAllows require b.is_market_open
unfolding check_market_status
market_iff require b = ground arith

freshness_iff :
    (require : Bool) (b : BrokerView) (symbol : String)
    → (is_ok (check_data_freshness require b symbol) ≡ true)
      ↔ TickAllows require b.is_stale_tick symbol
unfolding check_data_freshness
freshness_iff require b symbol = ground arith

instrument_iff :
    (symbol exchange : String)
    → (is_ok (check_instrument_validity symbol exchange) ≡ true) ↔ (
        ((is_nonempty symbol && is_ascii symbol) ≡ true)
        × ((is_nonempty exchange && spelled_in (upper (codes exchange)) valid_exchanges) ≡ true))
unfolding check_instrument_validity
instrument_iff symbol exchange =
    tests (is_nonempty symbol) (is_ascii symbol) (is_nonempty exchange)
      (spelled_in (upper (codes exchange)) valid_exchanges)
  where
    tests :
        (a b e f : Bool)
        → (is_ok (
              raise_if (not a || not b) (safety_check "Invalid symbol")
              >> raise_if (not e) (safety_check "Invalid exchange")
              >> raise_if (not f) (safety_check "Unknown exchange"))
            ≡ true)
          ↔ (((a && b) ≡ true) × ((e && f) ≡ true))
    tests a b e f = ground arith

position_iff :
    (ps : List HeldPosition) (max : ℤ) (closing : Option String)
    → (is_ok (check_position_limit ps max closing) ≡ true)
      ↔ (leb_ℤ max (pos (length (keep_if (counts_as_open closing) ps))) ≡ false)
unfolding check_position_limit
position_iff ps max closing = test (leb_ℤ max (pos (length (keep_if (counts_as_open closing) ps))))
  where
    test :
        (a : Bool)
        → (is_ok (raise_if a (safety_check "Position limit reached")) ≡ true) ↔ (a ≡ false)
    test a = ground arith

is_ok_unit : (m : Result (Unit {0})) → (is_ok m ≡ true) ↔ (m ≡ ok tt)
is_ok_unit m = ground arith

all_passed_iff : (gates : List Gate) → (all_passed gates ≡ true) ↔ All (λ g. is_ok g.1 ≡ true) gates
all_passed_iff [] = (λ _. tt, λ _. refl)
all_passed_iff ((name, m) ∷ gates) =
    let rest = all_passed_iff gates in
    (
      λ h. let (first, others) = &&_true (is_ok m) (all_passed gates) h in (first, rest.0 others),
      λ h. rw h.0 (rest.1 h.1),
    )

module _ {F : Type 0} ⦃d : Double F⦄ (c : OrderCheck F) where
  numbers_iff :
      ((is_ok (check_order_validity c.qty c.price c.max_qty c.max_price c.max_notional) ≡ true)
        × (is_ok (check_capital_availability c.trade_value c.available_cash) ≡ true))
      ↔ HasSoundNumbers c
  unfolding check_order_validity check_capital_availability
  numbers_iff = (λ h. ground arith, λ n. ground arith)

  limits_iff :
      ((is_ok (
            check_single_stock_exposure c.trade_value c.total_portfolio c.max_single_stock_pct
              c.net_trade_value)
          ≡ true)
        × (is_ok (check_risk_limit c.trade_risk c.daily_risk_used c.max_daily_risk) ≡ true)
        × (is_ok (check_daily_loss_limit c.realised_pnl_today c.max_daily_loss) ≡ true))
      ↔ ((d.is_finite c.trade_value ≡ true) × IsWithinLimits c)
  unfolding check_single_stock_exposure check_risk_limit check_daily_loss_limit
  limits_iff = (λ h. ground arith, λ n. ground arith)

  abbrev sector_gate : List Gate
  sector_gate =
      if has_sector c.sector
      then (
        "sector_exposure",
        check_sector_exposure c.sector_value c.total_portfolio c.max_sector_pct,
      )
        ∷ []
      else []

  sector_iff : All (λ g. is_ok g.1 ≡ true) sector_gate ↔ SectorAllows c
  unfolding check_sector_exposure
  sector_iff = elim (Bool-cases (has_sector c.sector)) [
    | inl e ↦ rw e (ground arith)
    | inr e ↦ rw e (ground arith)
  ]

module _ {F K : Type 0} ⦃d : Double F⦄ (ks : KillStore K) (require : Bool) where
  gates_permit :
      (k : K) (b : BrokerView) (c : OrderCheck F)
      → All (λ g. is_ok g.1 ≡ true) (gates_of ks require k b c)
      → IsPermitted ks require k b c
  unfolding gates_of
  gates_permit k b c
        (g1, (g2, (g3, (g4, (g5, (g6, (g7, (g8, (g9, (g10, (g11, (g12, g13)))))))))))) =
      let instrument = (instrument_iff c.symbol c.exchange).0 g5 in
      record {
        switch_off = (check_kill_switch_iff ks k).0 ((is_ok_unit (check_kill_switch ks k)).0 g1);
        connected = (connectivity_iff b).0 g2;
        market_open = (market_iff require b).0 g3;
        tick_fresh = (freshness_iff require b c.symbol).0 g4;
        symbol_valid = instrument.0;
        exchange_valid = instrument.1;
        numbers = (numbers_iff c).0 (g6, g7);
        slot_free = (position_iff c.current_positions c.max_positions _).0 g8;
        limits = ((limits_iff c).0 (g9, g10, g11)).1;
        no_duplicate =
            (check_duplicate_order_iff c.symbol c.strategy c.open_orders c.client_order_id).0
              ((is_ok_unit _).0 g12);
        sector = (sector_iff c).0 g13;
      }

  permit_gates :
      (k : K) (b : BrokerView) (c : OrderCheck F)
      → IsPermitted ks require k b c
      → All (λ g. is_ok g.1 ≡ true) (gates_of ks require k b c)
  unfolding gates_of
  permit_gates k b c p =
      let numbers = (numbers_iff c).1 p.numbers in
      let limits = (limits_iff c).1 (p.numbers.value_finite, p.limits) in
      let duplicates =
        (check_duplicate_order_iff c.symbol c.strategy c.open_orders c.client_order_id).1
          p.no_duplicate in
      (
        (is_ok_unit (check_kill_switch ks k)).1 ((check_kill_switch_iff ks k).1 p.switch_off),
        (
          (connectivity_iff b).1 p.connected,
          (
            (market_iff require b).1 p.market_open,
            (
              (freshness_iff require b c.symbol).1 p.tick_fresh,
              (
                (instrument_iff c.symbol c.exchange).1 (p.symbol_valid, p.exchange_valid),
                (
                  numbers.0,
                  (
                    numbers.1,
                    (
                      (position_iff c.current_positions c.max_positions _).1 p.slot_free,
                      (
                        limits.0,
                        (
                          limits.1,
                          (limits.2, ((is_ok_unit _).1 duplicates, (sector_iff c).1 p.sector)),
                        ),
                      ),
                    ),
                  ),
                ),
              ),
            ),
          ),
        ),
      )

  -- An order passes exactly if all of this holds: the switch can be read and is off, the broker is
  -- connected, its market open and its tick fresh, symbol and exchange are valid, every price and
  -- amount is finite and within its limits, a position slot is free, no live order duplicates it,
  -- and the exposure to its sector, if it names one, is within the limit.
  pub validate_order_iff :
      (k : K) (b : BrokerView) (c : OrderCheck F)
      → ((validate_order ks require k b c).passed ≡ true) ↔ IsPermitted ks require k b c
  validate_order_iff k b c =
      let passed = (validate_order_lem ks require k b c).0 in
      let all = all_passed_iff (gates_of ks require k b c) in
      (λ h. gates_permit k b c (all.0 (sym passed ∙ h)), λ p. passed ∙ all.1 (permit_gates k b c p))
