-- ===== src/Orders/Quiet.antt =====
-- Which coroutines of order_manager.py place no order: looking up, resolving, pricing and filling.
pub mod Handlers
use algo_dollar.Base.{
  ◌≡◌, refl, String, Bool, true, false, not, Option, none, some, List, ℤ, if◌then◌else◌,
}
use algo_dollar.Errors.{Exn, Result, ok, err}
use algo_dollar.Double.{Double}
use algo_dollar.Lifecycle.Record.{OrderRecord}
use algo_dollar.Lifecycle.Store.{FillData}
use algo_dollar.Orders.Broker.{BrokerOrder, StatusDict}
use algo_dollar.Orders.Env.{Env}
use algo_dollar.Orders.Exec.{Exec}
use algo_dollar.Orders.Exec.Calls.{
  IsKept, IsQuiet, quiet_rules, IsQuiet-bind, IsQuiet-ask, IsQuiet-attempt, IsQuiet-if,
  IsQuiet-pure, IsQuiet-raise, IsQuiet-save, IsQuiet-orders, IsQuiet-quote, IsQuiet-status,
  IsQuiet-trade, IsQuiet-position,
}
use algo_dollar.Orders.Fill.{
  book_fill, apply_to_record, handle_fill, apply_status, apply_any_immediate_fill,
}
use algo_dollar.Orders.Pricing.{
  Signal, check_quote_fresh, quote_fresh, market_price, resolve_reference_price,
}
use algo_dollar.Orders.Resolve.{
  Found, unreadable, absent, present, get_record, blocking_record_for, query_broker_for_tag,
  adopt_broker_order, resolve_unknown, handle_existing_intent,
}

module _ {F X : Type 0} (env : Env F X) {P : X → Type 0} (kept : IsKept env P) where
  pub get_record-IsQuiet : (ref : String) → IsQuiet P (get_record env ref)
  unfolding get_record
  get_record-IsQuiet ref =
      IsQuiet-bind _ _ (IsQuiet-ask _)
        (elim [ none ↦ search quiet_rules | some r ↦ search quiet_rules ])

  pub blocking_record_for-IsQuiet : (sig : Signal F) → IsQuiet P (blocking_record_for env sig)
  unfolding blocking_record_for
  blocking_record_for-IsQuiet sig = search quiet_rules

  pub query_broker_for_tag-IsQuiet : (r : OrderRecord F) → IsQuiet P (query_broker_for_tag env r)
  unfolding query_broker_for_tag
  query_broker_for_tag-IsQuiet r =
      IsQuiet-bind _ _ (IsQuiet-attempt _ (IsQuiet-orders env kept)) (elim [
        | err e ↦ search quiet_rules
        | ok none ↦ search quiet_rules
        | ok (some os) ↦ search quiet_rules
      ])

  adopt_broker_order-IsQuiet :
      (r : OrderRecord F) (o : BrokerOrder) → IsQuiet P (adopt_broker_order env r o)
  unfolding adopt_broker_order
  adopt_broker_order-IsQuiet r o = search (quiet_rules, IsQuiet-save env kept)

  pub resolve_unknown-IsQuiet : (r : OrderRecord F) → IsQuiet P (resolve_unknown env r)
  unfolding resolve_unknown
  resolve_unknown-IsQuiet r = IsQuiet-bind _ _ (query_broker_for_tag-IsQuiet r) (elim [
    | unreadable ↦ search (quiet_rules, IsQuiet-save env kept)
    | absent ↦ search (quiet_rules, IsQuiet-save env kept)
    | present o ↦ adopt_broker_order-IsQuiet r o
  ])

  pub handle_existing_intent-IsQuiet : (cid : String) → IsQuiet P (handle_existing_intent env cid)
  unfolding handle_existing_intent
  handle_existing_intent-IsQuiet cid = IsQuiet-bind _ _ (IsQuiet-ask _) (elim [
    | none ↦ search quiet_rules
    | some r ↦
        IsQuiet-if _ _ _ (resolve_unknown-IsQuiet r)
          (IsQuiet-if _ _ _ (IsQuiet-pure _) (IsQuiet-pure _))
  ])

module _ {F X : Type 0} ⦃d : Double F⦄ (env : Env F X) {P : X → Type 0} (kept : IsKept env P) where
  check_quote_fresh-IsQuiet : (symbol : String) → IsQuiet P (check_quote_fresh env symbol)
  unfolding check_quote_fresh
  check_quote_fresh-IsQuiet symbol = go env.is_stale_at
    where
      go :
          (is_stale : Option (String → X → Result Bool))
          → IsQuiet {F = F} P (quote_fresh is_stale symbol)
      go none = search quiet_rules
      go (some is_stale) = search quiet_rules

  market_price-IsQuiet : (sig : Signal F) → IsQuiet P (market_price env sig)
  unfolding market_price
  market_price-IsQuiet sig = IsQuiet-bind _ _ (IsQuiet-attempt _ (IsQuiet-quote env kept _)) (elim [
    | err e ↦ search quiet_rules
    | ok q ↦ search (quiet_rules, check_quote_fresh-IsQuiet sig.symbol)
  ])

  pub resolve_reference_price-IsQuiet :
      (sig : Signal F) → IsQuiet P (resolve_reference_price env sig)
  unfolding resolve_reference_price
  resolve_reference_price-IsQuiet sig =
      IsQuiet-if _ _ _ (market_price-IsQuiet sig)
        (IsQuiet-if _ _ _ (IsQuiet-pure _) (IsQuiet-raise _))

  book_fill-IsQuiet : (r : OrderRecord F) (f : FillData F) → IsQuiet P (book_fill env r f)
  unfolding book_fill
  book_fill-IsQuiet r f =
      search (quiet_rules, IsQuiet-save env kept, IsQuiet-trade env kept, IsQuiet-position env kept)

  apply_to_record-IsQuiet :
      (r : OrderRecord F) (f : FillData F) → IsQuiet P (apply_to_record env r f)
  unfolding apply_to_record
  apply_to_record-IsQuiet r f = search (quiet_rules, book_fill-IsQuiet)

  pub handle_fill-IsQuiet : (ref : String) (f : FillData F) → IsQuiet P (handle_fill env ref f)
  unfolding handle_fill
  handle_fill-IsQuiet ref f = IsQuiet-bind _ _ (get_record-IsQuiet env kept ref) (elim [
    | none ↦ search quiet_rules
    | some r ↦ IsQuiet-if _ _ _ (IsQuiet-raise _) (apply_to_record-IsQuiet r f)
  ])

  apply_status-IsQuiet :
      (r : OrderRecord F) (id : String) (s : StatusDict F) → IsQuiet P (apply_status env r id s)
  unfolding apply_status
  apply_status-IsQuiet r id s = search (quiet_rules, handle_fill-IsQuiet)

  pub apply_any_immediate_fill-IsQuiet :
      (r : OrderRecord F) → IsQuiet P (apply_any_immediate_fill env r)
  unfolding apply_any_immediate_fill
  apply_any_immediate_fill-IsQuiet r = IsQuiet-if _ _ _ (IsQuiet-pure _) (
      IsQuiet-bind _ _ (IsQuiet-attempt _ (IsQuiet-status env kept _)) (elim [
        | err e ↦ search quiet_rules
        | ok none ↦ search quiet_rules
        | ok (some s) ↦ apply_status-IsQuiet r _ s
      ]))
