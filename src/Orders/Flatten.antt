-- ===== src/Orders/Flatten.antt =====
-- `emergency_flatten_all` of order_manager.py. The cancellations that `asyncio.gather` starts run one
-- after the other, in order.
pub mod Once
pub mod Guarded
use algo_dollar.Base.{
  String, ◌<>◌, Bool, true, false, Option, none, some, List, [], ◌∷◌, ◌++◌, ℤ, pos, abs_ℤ, ltb_ℤ,
  eq_ℤ, if◌then◌else◌,
}
use algo_dollar.Base.Member.{contains}
use algo_dollar.Errors.{Exn, Result, ok, err, message, kill_switch_active, other}
use algo_dollar.Double.{Double, nought}
use algo_dollar.Lifecycle.Record.{OrderRecord, transition}
use algo_dollar.Lifecycle.States.{
  OrderState, intent_created, risk_check_pending, risk_approved, submitted, acknowledged, rejected,
  unknown,
}
use algo_dollar.Lifecycle.Store.{text_or}
use algo_dollar.Lifecycle.Tags.{deterministic_client_order_id}
use algo_dollar.Orders.Broker.{
  BrokerOrder, BrokerPosition, PlaceArgs, OrderType, market, Product, mis, TransactionType, buy,
  sell, txn_value, product_value, product_of_value,
}
use algo_dollar.Orders.Cancel.{cancel_order}
use algo_dollar.Orders.Env.{Env}
use algo_dollar.Orders.Exec.{
  Exec, pure, raise, lift, attempt, ask, query, reserve_record, save_record, place_order,
  engage_switch, ◌>>=◌, ◌>>◌,
}
use algo_dollar.Orders.Resolve.{Found, unreadable, absent, present, id_or, query_broker_for_tag}
use algo_dollar.Safety.Duplicates.{text_or_empty}
use algo_dollar.Safety.KillSwitch.{is_kill_switch_active}

-- `report`; an entry of `flattened` is a symbol with the order id.
pub record FlattenReport : Type 0 where
  pub cancelled : List (Option String)
  pub flattened : List (String × Option String)
  pub skipped : List String
  pub errors : List String

abbrev pub pending_statuses : List String
pending_statuses = "OPEN" ∷ "TRIGGER PENDING" ∷ "AMO REQ RECEIVED" ∷ []

-- `pending`; an entry that is no dict has no `.get`.
unfoldable pub pending_of : List (Option BrokerOrder) → Result (List BrokerOrder)
pending_of [] = ok []
pending_of (none ∷ os) = err (other "AttributeError")
pending_of (some o ∷ os) = elim (pending_of os) [
  | err e ↦ err e
  | ok rest ↦ ok (if contains (text_or_empty o.status) pending_statuses then o ∷ rest else rest)
]

-- `str(o.get("order_id"))`
abbrev pub id_text : Option String → String
id_text none = "None"
id_text (some s) = s

-- `Product(pos.get("product", "MIS"))`, with MIS for a text that is no product
abbrev pub product_of_position : BrokerPosition → Product
product_of_position p = elim (product_of_value (text_or p.product "MIS")) [
  | none ↦ mis
  | some product ↦ product
]

abbrev pub symbol_of_position : BrokerPosition → String
symbol_of_position p = text_or_empty (id_or p.tradingsymbol p.symbol)

abbrev pub closing_side : BrokerPosition → TransactionType
closing_side p = if ltb_ℤ (pos 0) p.quantity then sell else buy

module _ {F X : Type 0} ⦃d : Double F⦄ (env : Env F X) (session : String) where
  -- The deterministic id of a position in a session.
  unfoldable pub flatten_id : BrokerPosition → String
  flatten_id p =
      deterministic_client_order_id env.sha256_hex "FLAT" session (text_or p.exchange "NSE")
        (symbol_of_position p) (product_value (product_of_position p)) (env.text_of_int p.quantity)

  unfoldable pub flatten_record : BrokerPosition → OrderRecord F
  flatten_record p = record {
    client_order_id = flatten_id p;
    symbol = symbol_of_position p;
    exchange = text_or p.exchange "NSE";
    side = txn_value (closing_side p);
    qty = abs_ℤ p.quantity;
    order_type = "MARKET";
    product = product_value (product_of_position p);
    strategy = "EMERGENCY_FLATTEN";
    limit_price = nought;
    trigger_price = nought;
    reference_price = nought;
    state = intent_created;
    broker_order_id = none;
    filled_qty = pos 0;
    avg_fill_price = nought;
    reason = "";
    intent_kind = "flatten";
    history = [];
    applied_fill_ids = [];
  }

  unfoldable pub flatten_args : BrokerPosition → PlaceArgs F
  flatten_args p = record {
    symbol = symbol_of_position p;
    exchange = text_or p.exchange "NSE";
    txn_type = closing_side p;
    qty = abs_ℤ p.quantity;
    price = nought;
    order_type = market;
    product = product_of_position p;
    tag = flatten_id p;
    trigger_price = none;
  }

  abbrev with_error : FlattenReport → String → FlattenReport
  with_error report text = record report { errors = report.errors ++ text ∷ [] }

  -- What came of the one call: an exception is ambiguous, and the book is asked.
  unfoldable pub after_flatten :
      FlattenReport → String → OrderRecord F → Result (Option String) → Exec F X FlattenReport
  after_flatten report symbol r (err e) = lift (transition r unknown (message e) false) >>= λ r'.
      save_record env r' >> query_broker_for_tag env r' >>= λ found. elim found [
        | absent ↦
            (lift (transition r' rejected (message e) true) >>= λ q.
            save_record env q
            >> pure (
                with_error report
                  ("flatten " <> (symbol <> (": rejected (" <> (message e <> ")"))))))
        | unreadable ↦
            pure
              (with_error report ("flatten " <> (symbol <> (": UNKNOWN (" <> (message e <> ")")))))
        | present o ↦
            pure
              (with_error report ("flatten " <> (symbol <> (": UNKNOWN (" <> (message e <> ")")))))
      ]
  after_flatten report symbol r (ok order_id) =
      lift (
        transition (record r { broker_order_id = some (id_text order_id) }) acknowledged
          "flatten accepted" false)
      >>= λ r'.
          save_record env r'
          >> pure (record report { flattened = report.flattened ++ (symbol, order_id) ∷ [] })

  -- The record was reserved: it goes to SUBMITTED without the gates, and the order is sent.
  unfoldable pub flatten_reserved :
      FlattenReport → BrokerPosition → OrderRecord F → Exec F X FlattenReport
  unfolding after_flatten flatten_args
  flatten_reserved report p r = lift (transition r risk_check_pending "flatten" false) >>= λ r1.
      lift (transition r1 risk_approved "flatten override" false) >>= λ r2.
      lift (transition r2 submitted "flatten" false) >>= λ r3.
      save_record env r3 >> attempt (place_order env (flatten_args p)) >>= λ outcome.
      after_flatten report (symbol_of_position p) r3 outcome

  unfoldable pub flatten_one : FlattenReport → BrokerPosition → Exec F X FlattenReport
  unfolding flatten_reserved flatten_record
  flatten_one report p =
      if eq_ℤ p.quantity (pos 0)
      then pure report
      else (reserve_record env (flatten_record p) >>= λ reserved.
          if reserved
          then flatten_reserved report p (flatten_record p)
          else pure (record report { skipped = report.skipped ++ symbol_of_position p ∷ [] }))

  unfoldable pub flatten_positions : FlattenReport → List BrokerPosition → Exec F X FlattenReport
  unfolding flatten_one
  flatten_positions report [] = pure report
  flatten_positions report (p ∷ ps) =
      flatten_one report p >>= λ report'. flatten_positions report' ps

module _ {F X : Type 0} ⦃d : Double F⦄ (env : Env F X) where
  -- The switch: an engaged one stops the flatten unless it is overridden, else it is engaged.
  unfoldable pub start_flatten : (override : Bool) → Exec F X (Unit {0})
  start_flatten override = ask (λ x. ok (is_kill_switch_active env.switch x)) >>= λ active.
      if active
      then (if override then pure tt else raise (kill_switch_active "Kill switch is active."))
      else engage_switch env

  abbrev cancel_entry : FlattenReport → BrokerOrder → Result Bool → FlattenReport
  cancel_entry report o (ok true) = record report {
    cancelled = report.cancelled ++ o.order_id ∷ [];
  }
  cancel_entry report o (ok false) = record report {
    errors = report.errors ++ ("cancel " <> (id_text o.order_id <> ": False")) ∷ [];
  }
  cancel_entry report o (err e) = record report {
    errors = report.errors ++ ("cancel " <> (id_text o.order_id <> (": " <> message e))) ∷ [];
  }

  unfoldable pub cancel_pending_orders : FlattenReport → List BrokerOrder → Exec F X FlattenReport
  cancel_pending_orders report [] = pure report
  cancel_pending_orders report (o ∷ os) =
      attempt (cancel_order env (id_text o.order_id)) >>= λ result.
      cancel_pending_orders (cancel_entry report o result) os

  -- 1. The orders of the book that are pending are cancelled.
  unfoldable pub cancel_phase : Result (Option (List (Option BrokerOrder))) → Exec F X FlattenReport
  unfolding cancel_pending_orders
  cancel_phase (err e) = pure (record {
    cancelled = [];
    flattened = [];
    skipped = [];
    errors = ("get_orders: " <> message e) ∷ [];
  })
  cancel_phase (ok none) = raise (other "TypeError")
  cancel_phase (ok (some os)) = lift (pending_of os) >>= λ pending.
      cancel_pending_orders (record { cancelled = []; flattened = []; skipped = []; errors = [] })
        pending

  -- 2. The positions that are open are closed.
  unfoldable pub position_phase :
      String → FlattenReport → Result (List BrokerPosition) → Exec F X FlattenReport
  position_phase session report (err e) =
      pure (record report { errors = report.errors ++ ("get_positions: " <> message e) ∷ [] })
  position_phase session report (ok ps) = flatten_positions env session report ps

  unfoldable pub emergency_flatten_all :
      (override : Bool) → (session : String) → Exec F X FlattenReport
  unfolding start_flatten cancel_phase position_phase
  emergency_flatten_all override session =
      start_flatten override >> attempt (query env.get_orders) >>= λ orders.
      cancel_phase orders >>= λ report.
      attempt (query env.get_positions) >>= λ positions. position_phase session report positions
