-- ===== src/Tests/Toy.antt =====
-- A paper broker with an order book in memory, for the runs of the order manager.
use algo_dollar.Base.{true, false, Option, none, some, List, [], ◌∷◌, ◌++◌, pos}
use algo_dollar.Double.{Units, units_double}
use algo_dollar.Errors.{ok, err, other}
use algo_dollar.Lifecycle.Record.{OrderRecord}
use algo_dollar.Lifecycle.States.{OrderState, value}
use algo_dollar.Lifecycle.Store.{FillData, MemoryStore}
use algo_dollar.Orders.Broker.{BrokerOrder, PlaceArgs, StatusDict, market, buy, cnc}
use algo_dollar.Orders.Env.{Env, Settings}
use algo_dollar.Orders.Exec.{World}
use algo_dollar.Orders.Memory.{Outside, with_memory_store}
use algo_dollar.Orders.Pricing.{Signal}
use algo_dollar.Orders.Submit.{Account}
use algo_dollar.Safety.Gates.{BrokerView}
use algo_dollar.Safety.KillSwitch.{KillStore, StoreValue, text}

pub record Toy : Type 0 where
  pub switch : Option StoreValue
  pub book : List (Option BrokerOrder)

abbrev pub toy_switch : KillStore Toy
toy_switch = record {
  get = λ t. ok t.switch;
  set = some (λ t. (ok tt, record t { switch = some (text "1") }));
}

abbrev pub toy_view : BrokerView
toy_view = record {
  is_connected = ok true;
  is_market_open = some (ok true);
  is_stale_tick = some (λ _. ok false);
}

abbrev pub entry_of : PlaceArgs Units → BrokerOrder
entry_of args = record {
  order_id = some "B1";
  tag = some args.tag;
  status = some "OPEN";
  filled_quantity = pos 0;
}

abbrev pub filled_status : StatusDict Units
filled_status = record {
  status = some "COMPLETE";
  filled_qty = pos 0;
  filled_quantity = pos 0;
  quantity = pos 0;
  qty = pos 0;
  average_price = some (pos 0);
  avg_fill_price = some (pos 0);
}

-- The broker alone; its store part is never used.
abbrev pub toy_broker : Env Units Toy
toy_broker = record {
  reserve = λ r t. (err (other "no store"), t);
  get = λ cid t. err (other "no store");
  save = λ r t. (err (other "no store"), t);
  list_open = λ t. err (other "no store");
  record_trade = λ cid f t. (err (other "no store"), t);
  apply_position_delta = λ s e p n x t. (err (other "no store"), t);
  is_paper_class = true;
  trading_mode = ok "paper";
  supports_trigger = true;
  view = λ t. toy_view;
  is_stale_at = some (λ _ _. ok false);
  get_quote = λ key t.
      (ok (some ((key, record { is_empty = false; last_price = some (some (pos 100)) }) ∷ [])), t);
  place_order = λ args t. (ok (some "B1"), record t { book = t.book ++ some (entry_of args) ∷ [] });
  get_orders = λ t. (ok (some t.book), t);
  get_positions = λ t. (ok [], t);
  cancel_order = λ id t. (ok true, t);
  get_order_status = λ id t. (ok (some filled_status), t);
  switch = toy_switch;
  require_live_eligible = err (other "not eligible");
  text_of_int = λ n. "n";
  text_of_float = λ x. "x";
  sha256_hex = λ s. s;
}

unfoldable pub toy_env : Env Units (Outside Units Toy)
unfolding with_memory_store
toy_env = with_memory_store toy_broker

-- The broker with a store that agrees to everything and keeps nothing.
abbrev pub open_env : Env Units Toy
open_env = record toy_broker {
  reserve = λ r t. (ok true, t);
  get = λ cid t. ok none;
  save = λ r t. (ok tt, t);
  list_open = λ t. ok [];
  record_trade = λ cid f t. (ok true, t);
}

-- The same broker as a live one, in a process that may not trade live.
abbrev pub live_broker : Env Units Toy
live_broker = record toy_broker { is_paper_class = false; trading_mode = ok "live" }

abbrev pub toy_settings : Settings Units
toy_settings = record {
  max_qty = none;
  max_price = none;
  max_notional = none;
  require_stop = false;
  require_market_hours_support = true;
}

abbrev pub toy_signal : Signal Units
toy_signal = record {
  symbol = "TCS";
  exchange = "NSE";
  txn_type = buy;
  order_type = market;
  product = cnc;
  price = some (pos 0);
  stop_price = some (pos 0);
  strategy = "momentum";
  client_order_id = "momentumab";
  intent_kind = "entry";
}

abbrev pub toy_account : Account Units
toy_account = record {
  daily_risk_used = some (pos 0);
  max_daily_risk = some (pos 5000);
  available_cash = some (pos 5000);
  total_portfolio = some (pos 100_000);
  current_positions = [];
  open_orders = [];
  max_positions = pos 5;
  sector = none;
  sector_value = some (pos 0);
  realised_pnl_today = some (pos 0);
  max_daily_loss = some (pos 1000);
}

abbrev pub toy_outside : Outside Units Toy
toy_outside = record {
  store = record { records = []; trades = []; trade_ids = []; positions = [] };
  rest = record { switch = none; book = [] };
}

abbrev pub toy_world : World Units (Outside Units Toy)
toy_world = record { outside = toy_outside; calls = [] }

-- The switch is on.
abbrev pub stopped_world : World Units (Outside Units Toy)
stopped_world = record {
  outside = record (toy_outside) { rest = record { switch = some (text "1"); book = [] } };
  calls = [];
}

abbrev pub toy_record : OrderState → OrderRecord Units
toy_record s = record {
  client_order_id = "momentumab";
  symbol = "TCS";
  exchange = "NSE";
  side = "BUY";
  qty = pos 10;
  order_type = "MARKET";
  product = "CNC";
  strategy = "momentum";
  limit_price = some (pos 0);
  trigger_price = some (pos 0);
  reference_price = some (pos 100);
  state = s;
  broker_order_id = some "B1";
  filled_qty = pos 0;
  avg_fill_price = some (pos 0);
  reason = "";
  intent_kind = "entry";
  history = [];
  applied_fill_ids = [];
}

abbrev pub store_with : OrderRecord Units → MemoryStore Units
store_with r = record {
  records = (r.client_order_id, record { fields = r; state_text = some (value r.state) }) ∷ [];
  trades = [];
  trade_ids = [];
  positions = [];
}

-- An order with a record.
abbrev pub world_with : OrderRecord Units → World Units (Outside Units Toy)
world_with r = record {
  outside = record { store = store_with r; rest = record { switch = none; book = [] } };
  calls = [];
}

abbrev pub toy_fill : FillData Units
toy_fill = record {
  qty = pos 4;
  price = some (pos 100);
  txn_type = none;
  product = none;
  exchange = none;
  symbol = none;
  fill_id = some "F1";
  trade_id = "";
  timestamp = "";
  fill_time = "";
}
