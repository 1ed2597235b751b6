-- ===== src/Orders/Cancel.antt =====
-- `cancel_order` of order_manager.py.
pub mod Confirmed
use algo_dollar.Base.{String, ◌<>◌, Bool, true, false, not, Option, none, some, if◌then◌else◌}
use algo_dollar.Errors.{Result, ok, err, message, order_blocked}
use algo_dollar.Lifecycle.States.{
  OrderState, cancel_pending, cancelled, unknown, state_eq, is_blocked, is_terminal,
}
use algo_dollar.Lifecycle.Record.{OrderRecord, transition}
use algo_dollar.Safety.Duplicates.{text_or_empty}
use algo_dollar.Orders.Env.{Env}
use algo_dollar.Orders.Exec.{
  Exec, pure, raise, lift, attempt, save_record, cancel_at_broker, ◌>>=◌, ◌>>◌,
}
use algo_dollar.Orders.Resolve.{get_record, id_or}

module _ {F X : Type 0} (env : Env F X) where
  -- `record.transition(CANCEL_PENDING, ...)`, unless it is there already
  unfoldable pub request_cancel : OrderRecord F → Exec F X (OrderRecord F)
  request_cancel r =
      if state_eq r.state cancel_pending
      then pure r
      else (lift (transition r cancel_pending "cancel requested" false) >>= λ r'.
          save_record env r' >> pure r')

  -- The answer of the broker, for an order with a record.
  unfoldable pub after_cancel : OrderRecord F → Result Bool → Exec F X Bool
  after_cancel r (err e) =
      lift (transition r unknown ("cancel error: " <> message e) false) >>= λ r'.
      save_record env r' >> pure false
  after_cancel r (ok true) = lift (transition r cancelled "broker confirmed cancel" false) >>= λ r'.
      save_record env r' >> pure true
  after_cancel r (ok false) = pure false

  -- An order that has no local record.
  unfoldable pub cancel_unknown_order : String → Exec F X Bool
  cancel_unknown_order order_ref = attempt (cancel_at_broker env order_ref) >>= λ answer.
      elim answer [ err e ↦ pure false | ok done ↦ pure done ]

  unfoldable pub cancel_recorded : String → OrderRecord F → Exec F X Bool
  unfolding request_cancel after_cancel
  cancel_recorded order_ref r =
      if is_blocked r.state
      then raise (order_blocked ("Cannot cancel " <> r.client_order_id))
      else if is_terminal r.state
      then pure false
      else (request_cancel r >>= λ r'.
          attempt (cancel_at_broker env (text_or_empty (id_or r'.broker_order_id (some order_ref))))
          >>= λ answer. after_cancel r' answer)

  unfoldable pub cancel_order : String → Exec F X Bool
  unfolding cancel_recorded cancel_unknown_order
  cancel_order order_ref = get_record env order_ref >>= λ found. elim found [
    | none ↦ cancel_unknown_order order_ref
    | some r ↦ cancel_recorded order_ref r
  ]
