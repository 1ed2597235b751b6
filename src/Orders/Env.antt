-- ===== src/Orders/Env.antt =====
-- What the order manager calls: the order store, the broker, the kill-switch store and the
-- eligibility gate. `X` is the state behind all of them; any call may raise, and a call that raises
-- may have changed the state.
use algo_dollar.Base.{String, Bool, Option, List, ℤ}
use algo_dollar.Base.Dict.{Dict}
use algo_dollar.Errors.{Result}
use algo_dollar.Lifecycle.Record.{OrderRecord}
use algo_dollar.Lifecycle.Store.{FillData, Position}
use algo_dollar.Safety.KillSwitch.{KillStore}
use algo_dollar.Safety.Gates.{BrokerView}
use algo_dollar.Orders.Broker.{PlaceArgs, BrokerOrder, BrokerPosition, Quote, StatusDict}

pub record Env (F X : Type 0) : Type 0 where
  -- `OrderStore`
  pub reserve : OrderRecord F → X → Result Bool × X
  pub get : String → X → Result (Option (OrderRecord F))
  pub save : OrderRecord F → X → Result (Unit {0}) × X
  pub list_open : X → Result (List (OrderRecord F))
  pub record_trade : String → FillData F → X → Result Bool × X
  pub apply_position_delta : String → String → String → ℤ → F → X → Result (Position F) × X
  -- `BrokerInterface`: its class, its `trading_mode`, whether `place_order` names `trigger_price`
  pub is_paper_class : Bool
  pub trading_mode : Result String
  pub supports_trigger : Bool
  pub view : X → BrokerView
  -- `is_stale_tick` at the manager's own age limit, if the broker has it
  pub is_stale_at : Option (String → X → Result Bool)
  pub get_quote : String → X → Result (Option (Dict (Quote F))) × X
  pub place_order : PlaceArgs F → X → Result (Option String) × X
  -- an entry that is not a dict is `none`
  pub get_orders : X → Result (Option (List (Option BrokerOrder))) × X
  pub get_positions : X → Result (List BrokerPosition) × X
  pub cancel_order : String → X → Result Bool × X
  -- `none` is an answer of `None`
  pub get_order_status : String → X → Result (Option (StatusDict F)) × X
  -- the backend of `ExecutionSafety`
  pub switch : KillStore X
  -- `governance.eligibility.require_live_eligible`
  pub require_live_eligible : Result (Unit {0})
  -- `str(n)`, `str(x)`, and the hexadecimal SHA-256 digest of a text
  pub text_of_int : ℤ → String
  pub text_of_float : F → String
  pub sha256_hex : String → String

-- The arguments of the constructors of `OrderManager` and `ExecutionSafety`.
pub record Settings (F : Type 0) : Type 0 where
  pub max_qty : Option ℤ
  pub max_price : Option F
  pub max_notional : Option F
  pub require_stop : Bool
  pub require_market_hours_support : Bool
