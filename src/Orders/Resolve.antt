-- ===== src/Orders/Resolve.antt =====
-- Looking an order up, and resolving one whose outcome is unknown: `get_record`, `blocked_orders`,
-- `_query_broker_for_tag`, `_resolve_unknown`, `_handle_existing_intent` and `_blocking_record_for`.
use algo_dollar.Base.{
  String, ◌==◌, Bool, true, false, ◌&&◌, ◌||◌, Option, none, some, List, [], ◌∷◌, min_ℤ,
  is_nonempty, keep_if, if◌then◌else◌,
}
use algo_dollar.Errors.{ok, err, ambiguous_order}
use algo_dollar.Lifecycle.States.{rejected, unknown, state_eq, is_blocked}
use algo_dollar.Lifecycle.BrokerStatus.{map_broker_status}
use algo_dollar.Lifecycle.Record.{OrderRecord, transition}
use algo_dollar.Safety.Duplicates.{is_text, text_or_empty}
use algo_dollar.Orders.Broker.{BrokerOrder}
use algo_dollar.Orders.Env.{Env}
use algo_dollar.Orders.Exec.{Exec, pure, raise, lift, attempt, ask, query, save_record, ◌>>=◌, ◌>>◌}
use algo_dollar.Orders.Pricing.{Signal}

-- `a or b`, of order ids
abbrev pub id_or : Option String → Option String → Option String
id_or none other = other
id_or (some s) other = if is_nonempty s then some s else other

-- The ids that count as present.
abbrev pub present_id : Option String → Bool
present_id none = false
present_id (some s) = is_nonempty s

-- What a look at the order book says of an order.
pub data Found : Type 0 where
  unreadable absent : Found
  present : BrokerOrder → Found

module _ {F : Type 0} where
  -- `tag == client_order_id`, or the same broker order id
  abbrev pub is_same_order : OrderRecord F → BrokerOrder → Bool
  is_same_order r o =
      text_or_empty o.tag == r.client_order_id
      || (present_id r.broker_order_id && is_text r.broker_order_id (text_or_empty o.order_id))

  unfoldable pub find_in_book : OrderRecord F → List (Option BrokerOrder) → Found
  find_in_book r [] = absent
  find_in_book r (none ∷ os) = find_in_book r os
  find_in_book r (some o ∷ os) = if is_same_order r o then present o else find_in_book r os

  -- The loop of `get_record` over the open orders, by broker id.
  unfoldable pub find_by_broker_id : String → List (OrderRecord F) → Option (OrderRecord F)
  find_by_broker_id ref [] = none
  find_by_broker_id ref (r ∷ rs) =
      if is_text r.broker_order_id ref then some r else find_by_broker_id ref rs

  unfoldable pub find_blocking : Signal F → List (OrderRecord F) → Option (OrderRecord F)
  find_blocking sig [] = none
  find_blocking sig (r ∷ rs) =
      if is_blocked r.state && (r.symbol == sig.symbol && r.strategy == sig.strategy)
      then some r
      else find_blocking sig rs

module _ {F X : Type 0} (env : Env F X) where
  unfoldable pub get_record : String → Exec F X (Option (OrderRecord F))
  get_record ref = ask (env.get ref) >>= λ found. elim found [
    | some r ↦ pure (some r)
    | none ↦ (ask env.list_open >>= λ rs. pure (find_by_broker_id ref rs))
  ]

  unfoldable pub blocked_orders : Exec F X (List (OrderRecord F))
  blocked_orders = ask env.list_open >>= λ rs. pure (keep_if (λ r. is_blocked r.state) rs)

  unfoldable pub blocking_record_for : Signal F → Exec F X (Option (OrderRecord F))
  blocking_record_for sig = ask env.list_open >>= λ rs. pure (find_blocking sig rs)

  -- `None`, if the book could not be read; `"absent"`; or the entry.
  unfoldable pub query_broker_for_tag : OrderRecord F → Exec F X Found
  query_broker_for_tag r = attempt (query env.get_orders) >>= λ orders. elim orders [
    | err e ↦ pure unreadable
    | ok none ↦ pure unreadable
    | ok (some os) ↦ pure (find_in_book r os)
  ]

  -- The entry was found: take its id, its fill and its state over.
  unfoldable pub adopt_broker_order : OrderRecord F → BrokerOrder → Exec F X (Option String)
  adopt_broker_order r o =
      let new_state = map_broker_status o.status o.filled_quantity r.qty in
      let named = record r {
        broker_order_id = some (text_or_empty (id_or o.order_id r.broker_order_id));
      } in
      if state_eq new_state unknown
      then save_record env named >> raise (ambiguous_order "uninterpretable broker status")
      else (lift (
            transition (record named { filled_qty = min_ℤ o.filled_quantity r.qty }) new_state
              "resolved from broker order book" true)
          >>= λ done.
              save_record env done
              >> pure (if present_id done.broker_order_id then done.broker_order_id else none))

  unfoldable pub resolve_unknown : OrderRecord F → Exec F X (Option String)
  unfolding adopt_broker_order
  resolve_unknown r = query_broker_for_tag r >>= λ found. elim found [
    | unreadable ↦
        (save_record env r
          >> raise (ambiguous_order "Order is in UNKNOWN and could not be reconciled."))
    | absent ↦
        (lift (transition r rejected "not present in broker order book after ambiguous submit" true)
          >>= λ closed. save_record env closed >> pure none)
    | present o ↦ adopt_broker_order r o
  ]

  unfoldable pub handle_existing_intent : String → Exec F X (Option String)
  handle_existing_intent cid = ask (env.get cid) >>= λ found. elim found [
    | none ↦ raise (ambiguous_order "Client order id is reserved but unreadable")
    | some r ↦
        if is_blocked r.state
        then resolve_unknown r
        else if present_id r.broker_order_id
        then pure r.broker_order_id
        else pure none
  ]
