-- ===== src/Tests/Reconcile.antt =====
-- Runs of the reconciliation of a small broker with what was stored.
use algo_dollar.Base.{
  ◌≤◌, ◌≡◌, refl, true, false, ◌⊎◌, Bool, Option, none, some, String, [], ◌∷◌, ℤ, pos, All, ◌↔◌,
  codes_eq, strip, upper, arith,
}
use algo_dollar.Base.Dict.{lookup, insert}
use algo_dollar.Base.Member.{contains}
use algo_dollar.Double.{Units, units_double}
use algo_dollar.Errors.{Result, ok, err, other}
use algo_dollar.Safety.KillSwitch.{StoreValue}
use algo_dollar.Reconcile.Values.{through_float, text, int, Row, Conversions, int_of}
use algo_dollar.Reconcile.Status.{permits_trading, reconciliation_mismatch, ReconciliationStatus}
use algo_dollar.Reconcile.Snapshot.{Tolerances, comparable, qty_differs, price_differs}
use algo_dollar.Reconcile.Fills.{reconcile_fills, group_fills, fill_qty}
use algo_dollar.Reconcile.Fills.Totals.{fills_of, FillsAgree, reconcile_fills-agree}
use algo_dollar.Reconcile.Orders.{reconcile_orders, identify_unknown_orders}
use algo_dollar.Reconcile.Orders.Open.{OpenAgree, latest, reconcile_orders-agree}
use algo_dollar.Reconcile.Orders.Known.{IsTraceable, IsKnown, identify_unknown_orders-All}
use algo_dollar.Reconcile.Positions.{cash_fields, reconcile_positions, reconcile_cash}
use algo_dollar.Reconcile.Positions.Net.{magnitude, gross_qty}
use algo_dollar.Reconcile.Positions.Cash.{FieldAgrees, reconcile_cash_iff}
use algo_dollar.Reconcile.Engine.{
  Source, given, HaltStore, ReconciliationResult, finish, classify, gather, compare_all, evaluate,
  enforce, reconcile,
}
use algo_dollar.Reconcile.Engine.Verdict.{Holdings, Reads, snapshot_of, IsReconciled, evaluate_iff}
use algo_dollar.Reconcile.Engine.Halt.{Halted, NotActivated, enforce-Halted}
use algo_dollar.Reconcile.Engine.Agreed.{Agreed, compare_all_nothing, reconcile-Agreed}

abbrev whole_units : Units → Result ℤ
whole_units (some n) = ok n
whole_units none = err (other "cannot convert float NaN to integer")

abbrev pub toy_py : Conversions Units
toy_py = record {
  parse_float = λ s. none;
  of_int = λ n. ok (units_double.of_ℤ n);
  whole = whole_units;
  text_of_other = λ v. "None";
}

abbrev pub toy_tolerances : Tolerances Units
toy_tolerances = record {
  qty = pos 0;
  price_pct = some (pos 0);
  cash_abs = some (pos 1);
  cash_pct = some (pos 0);
}

abbrev toy_order : (qty filled : ℤ) → Row Units
toy_order qty filled =
    ("order_id", text "B1")
    ∷ ("symbol", text "TCS")
    ∷ ("status", text " open")
    ∷ ("quantity", int qty)
    ∷ ("filled_quantity", int filled)
    ∷ []

abbrev toy_trade : String → Row Units
toy_trade key =
    ("order_id", text "B1")
    ∷ ("symbol", text "TCS")
    ∷ (key, int (pos 4))
    ∷ ("price", int (pos 100))
    ∷ []

abbrev toy_position : ℤ → Row Units
toy_position qty =
    ("symbol", text "TCS") ∷ ("quantity", int qty) ∷ ("average_price", int (pos 100)) ∷ []

abbrev pub at_broker : Holdings Units
at_broker = record {
  positions = toy_position (pos 3) ∷ toy_position (pos 1) ∷ [];
  orders = toy_order (pos 10) (pos 4) ∷ [];
  trades = toy_trade "qty" ∷ [];
  cash = ("cash", int (pos 5000)) ∷ [];
}

abbrev pub stored : Holdings Units
stored = record {
  positions = toy_position (pos 4) ∷ [];
  orders = toy_order (pos 10) (pos 4) ∷ [];
  trades = toy_trade "quantity" ∷ [];
  cash = ("cash", int (pos 4999)) ∷ [];
}

abbrev pub source_of : Holdings Units → Source Units
source_of h = record {
  get_positions = ok (given h.positions);
  get_orders = ok (given h.orders);
  get_trades = ok (given h.trades);
  get_cash = ok (given h.cash);
}

Reads-of : (h : Holdings Units) → Reads (source_of h) h
Reads-of h = record { positions = refl; orders = refl; trades = refl; cash = refl }

-- A switch that keeps what is written.
abbrev pub plain_store : HaltStore (Option StoreValue)
plain_store = record { set = λ k. (ok tt, some (StoreValue.text "1")); get = some (λ k. ok k) }

abbrev pub all_statuses : ReconciliationStatus → Bool
all_statuses s = true

sides_agree : compare_all toy_py toy_tolerances (snapshot_of at_broker stored) ≡ ok []
unfolding compare_all reconcile_orders reconcile_fills reconcile_positions reconcile_cash
    identify_unknown_orders units_double lookup codes_eq upper strip group_fills fill_qty
    qty_differs price_differs
sides_agree = refl

abbrev parts :
    (reconcile_orders toy_py toy_tolerances (snapshot_of at_broker stored) ≡ ok [])
    × (reconcile_positions toy_py toy_tolerances (snapshot_of at_broker stored) ≡ ok [])
    × (reconcile_cash toy_py toy_tolerances (snapshot_of at_broker stored) ≡ ok [])
    × (identify_unknown_orders toy_py (snapshot_of at_broker stored) ≡ ok [])
parts = compare_all_nothing toy_py toy_tolerances (snapshot_of at_broker stored) sides_agree

fills_clean : reconcile_fills toy_py toy_tolerances (snapshot_of at_broker stored) ≡ ok []
unfolding reconcile_fills units_double lookup insert group_fills fill_qty qty_differs price_differs
fills_clean = refl

exact_units : (n : ℤ) → magnitude n ≤ 100 → through_float toy_py n ≡ ok n
unfolding units_double
exact_units n small = refl

small_positions :
    (gross_qty toy_py at_broker.positions ≤ 100) × (gross_qty toy_py stored.positions ≤ 100)
unfolding gross_qty int_of units_double lookup
small_positions = (omega arith, omega arith)

returned : ReconciliationResult Units
returned = evaluate toy_py toy_tolerances (source_of at_broker) (some (source_of stored))

it_returns :
    (reconcile toy_py toy_tolerances
      (some plain_store)
      all_statuses
      true
      (source_of at_broker)
      (some (source_of stored))
      none).0
    ≡ ok returned
unfolding reconcile enforce returned evaluate gather classify compare_all reconcile_orders
    reconcile_fills reconcile_positions reconcile_cash identify_unknown_orders units_double lookup
    codes_eq upper strip group_fills fill_qty qty_differs price_differs
it_returns = refl

reconcile-Agreed_example : Agreed toy_py toy_tolerances at_broker stored
reconcile-Agreed_example =
    reconcile-Agreed toy_py toy_tolerances 100 exact_units (some plain_store) all_statuses
      (source_of at_broker) (source_of stored) at_broker stored none returned refl
      (Reads-of at_broker) (Reads-of stored) small_positions.0 small_positions.1 it_returns

evaluate_iff_example :
    (permits_trading
        (evaluate toy_py toy_tolerances (source_of at_broker) (some (source_of stored))).status
      ≡ true)
    ↔ IsReconciled toy_py toy_tolerances (source_of at_broker) (some (source_of stored))
evaluate_iff_example =
    evaluate_iff toy_py toy_tolerances (source_of at_broker) (some (source_of stored))

reconcile_orders-agree_example :
    OpenAgree toy_py toy_tolerances
      (latest toy_py "B1" none at_broker.orders)
      (latest toy_py "B1" none stored.orders)
reconcile_orders-agree_example =
    reconcile_orders-agree toy_py toy_tolerances (snapshot_of at_broker stored) "B1" parts.0

reconcile_fills-agree_example :
    ((fills_of toy_py "B1" at_broker.trades ≡ []) × (fills_of toy_py "B1" stored.trades ≡ []))
    ⊎ FillsAgree toy_py toy_tolerances
        (fills_of toy_py "B1" at_broker.trades)
        (fills_of toy_py "B1" stored.trades)
reconcile_fills-agree_example =
    reconcile_fills-agree toy_py toy_tolerances (snapshot_of at_broker stored) "B1" fills_clean

identify_unknown_orders-All_example : All IsTraceable stored.orders × All IsKnown at_broker.orders
unfolding contains
identify_unknown_orders-All_example =
    identify_unknown_orders-All toy_py (snapshot_of at_broker stored) refl parts.3

reconcile_cash_iff_example :
    (reconcile_cash toy_py toy_tolerances (snapshot_of at_broker stored) ≡ ok []) ↔ (
      (comparable "broker_cash" "local_cash" (snapshot_of at_broker stored) ≡ true)
      × All (FieldAgrees toy_py toy_tolerances at_broker.cash stored.cash) cash_fields)
reconcile_cash_iff_example = reconcile_cash_iff toy_py toy_tolerances (snapshot_of at_broker stored)

-- A pass that found the sides to differ.
abbrev blind : ReconciliationResult Units
blind = record {
  status = reconciliation_mismatch;
  discrepancies = [];
  unavailable_sources = [];
  snapshot = none;
  kill_switch_activated = false;
  error = none;
}

enforce-Halted_example :
    (((enforce (some plain_store) all_statuses true blind none).0
        ≡ finish true (record blind { kill_switch_activated = true }))
      × Halted (some plain_store) none (enforce (some plain_store) all_statuses true blind none).1)
    ⊎ NotActivated (enforce (some plain_store) all_statuses true blind none).0
enforce-Halted_example = enforce-Halted (some plain_store) all_statuses true blind none refl refl
