-- ===== src/Orders/Broker.antt =====
-- The enumerations of backend/app/broker/base.py, and what passes between the order manager and a
-- broker: the arguments of `place_order` and the dicts that the broker hands back.
use algo_dollar.Base.{
  String, ◌==◌, ◌≡◌, refl, Bool, true, false, Option, none, some, ℤ, if◌then◌else◌,
}

pub data OrderType : Type 0 where
  market limit sl sl_m : OrderType

pub data TransactionType : Type 0 where
  buy sell : TransactionType

pub data Product : Type 0 where
  cnc mis nrml co bo : Product

abbrev pub order_type_value : OrderType → String
order_type_value market = "MARKET"
order_type_value limit = "LIMIT"
order_type_value sl = "SL"
order_type_value sl_m = "SL-M"

abbrev pub txn_value : TransactionType → String
txn_value buy = "BUY"
txn_value sell = "SELL"

abbrev pub product_value : Product → String
product_value cnc = "CNC"
product_value mis = "MIS"
product_value nrml = "NRML"
product_value co = "CO"
product_value bo = "BO"

-- `TransactionType(text)`; `none` is the `ValueError`.
unfoldable pub txn_of_value : String → Option TransactionType
txn_of_value v = if "BUY" == v then some buy else if "SELL" == v then some sell else none

unfoldable pub product_of_value : String → Option Product
product_of_value v =
    if "CNC" == v
    then some cnc
    else if "MIS" == v
    then some mis
    else if "NRML" == v
    then some nrml
    else if "CO" == v
    then some co
    else if "BO" == v
    then some bo
    else none

-- `order_type in _MARKET_PRICED`
abbrev pub is_market_priced : OrderType → Bool
is_market_priced market = true
is_market_priced sl_m = true
is_market_priced _ = false

-- `order_type in _TRIGGERED`
abbrev pub is_triggered : OrderType → Bool
is_triggered sl = true
is_triggered sl_m = true
is_triggered _ = false

-- The arguments of one `place_order` call.
pub record PlaceArgs (F : Type 0) : Type 0 where
  pub symbol : String
  pub exchange : String
  pub txn_type : TransactionType
  pub qty : ℤ
  pub price : F
  pub order_type : OrderType
  pub product : Product
  pub tag : String
  pub trigger_price : Option F

-- An entry of the broker's order book.
pub record BrokerOrder : Type 0 where
  pub order_id : Option String
  pub tag : Option String
  pub status : Option String
  pub filled_quantity : ℤ

-- An entry of the broker's positions.
pub record BrokerPosition : Type 0 where
  pub tradingsymbol : Option String
  pub symbol : Option String
  pub exchange : Option String
  pub product : Option String
  pub quantity : ℤ

-- A quote: whether the dict is empty, and its `last_price`, if that is a number.
pub record Quote (F : Type 0) : Type 0 where
  pub is_empty : Bool
  pub last_price : Option F

-- A status dict; a number that is missing is 0.
pub record StatusDict (F : Type 0) : Type 0 where
  pub status : Option String
  pub filled_qty : ℤ
  pub filled_quantity : ℤ
  pub quantity : ℤ
  pub qty : ℤ
  pub average_price : F
  pub avg_fill_price : F

txn_of_value-value : (t : TransactionType) → txn_of_value (txn_value t) ≡ some t
unfolding txn_of_value
txn_of_value-value buy = refl
txn_of_value-value sell = refl
