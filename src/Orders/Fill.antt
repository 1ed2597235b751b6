-- ===== src/Orders/Fill.antt =====
-- `handle_fill`, `_apply_any_immediate_fill`, `_update_position` and `_derive_fill_id`.
pub mod Writes
pub mod Booked
use algo_dollar.Base.{
  String, ◌<>◌, ◌==◌, Bool, true, false, not, Option, none, some, List, [], ◌∷◌, ℤ, pos, ◌-ℤ◌,
  leb_ℤ, eq_ℤ, is_nonempty, take_text, codes, codes_eq, upper, if◌then◌else◌,
}
use algo_dollar.Errors.{Result, ok, err, order_submission, order_blocked, value_error}
use algo_dollar.Double.{Double, nought, is_truthy}
use algo_dollar.Lifecycle.States.{OrderState, filled, partially_filled, is_blocked}
use algo_dollar.Lifecycle.Record.{OrderRecord, transition, apply_fill, remaining_qty}
use algo_dollar.Lifecycle.Store.{FillData, text_or}
use algo_dollar.Lifecycle.Tags.{join_parts}
use algo_dollar.Orders.Broker.{TransactionType, Product, StatusDict, txn_of_value, product_of_value}
use algo_dollar.Orders.Env.{Env}
use algo_dollar.Orders.Exec.{
  Exec, pure, raise, lift, attempt, query, save_record, record_trade, apply_position_delta, ◌>>=◌,
  ◌>>◌,
}
use algo_dollar.Orders.Resolve.{get_record, present_id}

-- What `handle_fill` adds to the dict that it returns.
pub record FillReport : Type 0 where
  pub duplicate : Bool
  pub state : OrderState
  pub filled_qty : ℤ
  pub remaining : ℤ

-- `TransactionType(text)` and `Product(text)`, which raise `ValueError`.
abbrev pub parse_txn : String → Result TransactionType
parse_txn v = elim (txn_of_value v) [
  | none ↦ err (value_error "not a valid TransactionType")
  | some t ↦ ok t
]

abbrev pub parse_product : String → Result Product
parse_product v = elim (product_of_value v) [
  | none ↦ err (value_error "not a valid Product")
  | some p ↦ ok p
]

-- `qty if side == "BUY" else -qty`, of the side in upper case
unfoldable pub position_change : (side : String) → ℤ → ℤ
position_change side qty = if codes_eq (upper (codes side)) (codes "BUY") then qty else pos 0 -ℤ qty

-- `a or b` of two numbers
abbrev pub int_or : ℤ → ℤ → ℤ
int_or a b = if eq_ℤ a (pos 0) then b else a

module _ {F X : Type 0} (env : Env F X) where
  -- `_derive_fill_id`
  unfoldable pub derive_fill_id : String → FillData F → String
  derive_fill_id cid fill = take_text 24 (
      env.sha256_hex (
        cid
        <> ("|"
            <> join_parts fill.trade_id (env.text_of_int fill.qty) (env.text_of_float fill.price)
                fill.timestamp fill.fill_time)))

  -- `str(fill_data.get("fill_id") or _derive_fill_id(...))`
  unfoldable pub fill_id_of : String → FillData F → String
  unfolding derive_fill_id
  fill_id_of cid fill =
      let given = text_or fill.fill_id "" in
      if is_nonempty given then given else derive_fill_id cid fill

module _ {F X : Type 0} ⦃d : Double F⦄ (env : Env F X) where
  unfoldable pub report_of : Bool → OrderRecord F → FillReport
  report_of duplicate r = record {
    duplicate = duplicate;
    state = r.state;
    filled_qty = r.filled_qty;
    remaining = remaining_qty r;
  }

  -- A fill that is new to the record: the trade, the state, the position.
  unfoldable pub book_fill : OrderRecord F → FillData F → Exec F X FillReport
  unfolding report_of
  book_fill r fill = record_trade env r.client_order_id fill >>= λ first_time.
      lift (
        transition r (if eq_ℤ (remaining_qty r) (pos 0) then filled else partially_filled) "fill"
          false)
      >>= λ moved.
          save_record env moved
          >> apply_position_delta env moved.symbol moved.exchange moved.product
              (position_change (text_or fill.txn_type moved.side) fill.qty) fill.price
          >>= λ position. pure (report_of false moved)

  -- The record was found and is not blocked.
  unfoldable pub apply_to_record : OrderRecord F → FillData F → Exec F X FillReport
  unfolding report_of book_fill
  apply_to_record r fill =
      let fill_id = fill_id_of env r.client_order_id fill in
      lift (parse_txn (text_or fill.txn_type r.side)) >>= λ txn.
      lift (parse_product (text_or fill.product r.product)) >>= λ product.
      lift (apply_fill r fill.qty fill.price fill_id) >>= λ (r', applied).
      if applied
      then book_fill r' (record fill { fill_id = some fill_id })
      else pure (report_of true r')

  unfoldable pub handle_fill : String → FillData F → Exec F X FillReport
  unfolding apply_to_record
  handle_fill order_ref fill = get_record env order_ref >>= λ found. elim found [
    | none ↦ raise (order_submission ("Fill for unknown order " <> order_ref))
    | some r ↦
        if is_blocked r.state
        then raise (order_blocked ("Fill while UNKNOWN for " <> r.client_order_id))
        else apply_to_record r fill
  ]

  abbrev float_or : F → F → F
  float_or a b = if is_truthy a then a else b

  -- The fill that a status reports beyond what the record has.
  unfoldable pub immediate_fill : OrderRecord F → String → StatusDict F → FillData F
  immediate_fill r broker_id status =
      let reported = int_or status.filled_qty status.filled_quantity in
      record {
        qty = reported -ℤ r.filled_qty;
        price = float_or status.average_price (float_or status.avg_fill_price r.reference_price);
        txn_type = some r.side;
        product = some r.product;
        exchange = some r.exchange;
        symbol = some r.symbol;
        fill_id = some (broker_id <> (":immediate:" <> env.text_of_int reported));
        trade_id = "";
        timestamp = "";
        fill_time = "";
      }

  abbrev nothing_new : OrderRecord F → StatusDict F → Bool
  nothing_new r status =
      let reported = int_or status.filled_qty status.filled_quantity in
      if leb_ℤ reported (pos 0) then true else leb_ℤ reported r.filled_qty

  -- Best effort: no failure of it reaches the caller.
  unfoldable pub apply_status : OrderRecord F → String → StatusDict F → Exec F X (Unit {0})
  unfolding handle_fill immediate_fill
  apply_status r broker_id status =
      if nothing_new r status
      then pure tt
      else if d.le (immediate_fill r broker_id status).price nought
      then pure tt
      else (attempt (handle_fill r.client_order_id (immediate_fill r broker_id status))
          >>= λ outcome. pure tt)

  unfoldable pub apply_any_immediate_fill : OrderRecord F → Exec F X (Unit {0})
  unfolding apply_status
  apply_any_immediate_fill r =
      if not (present_id r.broker_order_id)
      then pure tt
      else (let id = text_or r.broker_order_id "" in
          attempt (query (env.get_order_status id)) >>= λ status. elim status [
            | err e ↦ pure tt
            | ok none ↦ pure tt
            | ok (some s) ↦ apply_status r id s
          ])
