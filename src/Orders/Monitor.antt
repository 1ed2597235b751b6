-- ===== src/Orders/Monitor.antt =====
-- `monitor_order` and `_monitor_result` of order_manager.py. The deadline is a number of further
-- polls that it leaves time for.
pub mod Outcome
use algo_dollar.Base.{
  ℕ, zero, suc, String, Bool, true, false, not, ◌&&◌, Option, none, some, List, [], ◌∷◌, ◌++◌, ℤ,
  pos, min_ℤ, if◌then◌else◌,
}
use algo_dollar.Errors.{Exn, Result, ok, err, message}
use algo_dollar.Lifecycle.States.{
  OrderState, filled, cancelled, rejected, expired, unknown, state_eq, state_in, is_terminal,
  is_blocked,
}
use algo_dollar.Lifecycle.BrokerStatus.{map_broker_status}
use algo_dollar.Lifecycle.Record.{OrderRecord, transition}
use algo_dollar.Safety.Duplicates.{text_or_empty}
use algo_dollar.Orders.Broker.{StatusDict}
use algo_dollar.Orders.Env.{Env}
use algo_dollar.Orders.Exec.{Exec, pure, lift, attempt, query, save_record, ◌>>=◌, ◌>>◌}
use algo_dollar.Orders.Fill.{int_or}
use algo_dollar.Orders.Resolve.{get_record, id_or}

abbrev pub final_states : List OrderState
final_states = filled ∷ cancelled ∷ rejected ∷ expired ∷ []

-- What the returned dict adds to the last status.
pub record MonitorResult : Type 0 where
  pub state : OrderState
  pub timed_out : Bool
  pub poll_errors : List String
  pub is_final : Bool

abbrev pub monitor_result : OrderState → Bool → List String → MonitorResult
monitor_result state timed_out errors = record {
  state = state;
  timed_out = timed_out;
  poll_errors = errors;
  is_final = state_in state final_states;
}

-- The variables of the loop.
pub record Watch (F : Type 0) : Type 0 where
  pub order : Option (OrderRecord F)
  pub has_polled : Bool
  pub poll_errors : List String
  pub state : OrderState

module _ {F : Type 0} where
  abbrev pub state_or_unknown : Option (OrderRecord F) → OrderState
  state_or_unknown none = unknown
  state_or_unknown (some r) = r.state

  abbrev pub qty_or_zero : Option (OrderRecord F) → ℤ
  qty_or_zero none = pos 0
  qty_or_zero (some r) = r.qty

  abbrev pub id_of : Option (OrderRecord F) → Option String
  id_of none = none
  id_of (some r) = r.broker_order_id

module _ {F X : Type 0} (env : Env F X) where
  -- A transition that raises is logged; the record keeps a new state whose save fails.
  unfoldable pub observed : OrderRecord F → Result (OrderRecord F) → Exec F X (OrderRecord F)
  observed r (err e) = pure r
  observed r (ok r') = attempt (save_record env r') >>= λ saved. pure r'

  unfoldable pub observe : OrderRecord F → OrderState → Exec F X (OrderRecord F)
  unfolding observed
  observe r state =
      if not (state_eq state r.state) && not (is_terminal r.state)
      then observed r (transition r state "observed by monitor" (is_blocked r.state))
      else pure r

  unfoldable pub observe_if :
      Option (OrderRecord F) → ℤ → OrderState → Exec F X (Option (OrderRecord F))
  unfolding observe
  observe_if none reported state = pure none
  observe_if (some r) reported state =
      observe (record r { filled_qty = min_ℤ reported r.qty }) state >>= λ r'. pure (some r')

  -- A poll that returned a status.
  unfoldable pub see_status : Watch F → StatusDict F → Exec F X (Watch F)
  unfolding observe_if
  see_status v s =
      let reported = int_or s.filled_quantity s.filled_qty in
      let qty = int_or s.quantity (int_or s.qty (qty_or_zero v.order)) in
      let state = map_broker_status s.status reported qty in
      observe_if v.order reported state >>= λ order.
      pure (record v { order = order; has_polled = true; state = state })

  unfoldable pub poll : String → Watch F → Exec F X (Watch F × Bool)
  unfolding see_status
  poll broker_id v = attempt (query (env.get_order_status broker_id)) >>= λ fresh. elim fresh [
    | err e ↦ pure (record v { poll_errors = v.poll_errors ++ message e ∷ [] }, false)
    | ok none ↦ pure (v, false)
    | ok (some s) ↦ (see_status v s >>= λ v'. pure (v', state_in v'.state final_states))
  ]

  unfoldable pub give_up_on : Watch F → Option (OrderRecord F) → Exec F X MonitorResult
  give_up_on v none = pure (monitor_result unknown true v.poll_errors)
  give_up_on v (some r) =
      if not (is_terminal r.state) && not (is_blocked r.state)
      then (lift (transition r unknown "no successful status poll" false) >>= λ r'.
          save_record env r' >> pure (monitor_result unknown true v.poll_errors))
      else pure (monitor_result unknown true v.poll_errors)

  -- After the loop: with no successful poll the order is ambiguous.
  unfoldable pub give_up : Watch F → Exec F X MonitorResult
  unfolding give_up_on
  give_up v =
      if v.has_polled
      then pure (monitor_result v.state true v.poll_errors)
      else give_up_on v v.order

  unfoldable pub watch : (rounds : ℕ) → String → Watch F → Exec F X MonitorResult
  unfolding poll give_up
  watch zero broker_id v = poll broker_id v >>= λ (v', done).
      if done then pure (monitor_result v'.state false v'.poll_errors) else give_up v'
  watch (suc rounds) broker_id v = poll broker_id v >>= λ (v', done).
      let again = watch rounds broker_id v' in
      if done then pure (monitor_result v'.state false v'.poll_errors) else again

  unfoldable pub monitor_order : (rounds : ℕ) → String → Exec F X MonitorResult
  unfolding watch
  monitor_order rounds order_ref = get_record env order_ref >>= λ found.
      watch rounds (text_or_empty (id_or (id_of found) (some order_ref))) (record {
        order = found;
        has_polled = false;
        poll_errors = [];
        state = state_or_unknown found;
      })
