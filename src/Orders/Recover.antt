-- ===== src/Orders/Recover.antt =====
-- `recover` and `_walk_to_submitted` of order_manager.py.
pub mod Absent
use algo_dollar.Base.{
  String, Bool, true, false, not, ◌&&◌, ◌||◌, Option, none, some, List, [], ◌∷◌, ℤ, min_ℤ,
  is_nonempty, if◌then◌else◌,
}
use algo_dollar.Errors.{Result, ok, err}
use algo_dollar.Lifecycle.States.{
  OrderState, intent_created, risk_check_pending, risk_approved, risk_rejected, submitted,
  acknowledged, partially_filled, cancel_pending, rejected, unknown, state_eq, state_in,
}
use algo_dollar.Lifecycle.BrokerStatus.{map_broker_status}
use algo_dollar.Lifecycle.Record.{OrderRecord, transition}
use algo_dollar.Lifecycle.Transitions.{legal_transitions}
use algo_dollar.Safety.Duplicates.{text_or_empty}
use algo_dollar.Orders.Broker.{BrokerOrder}
use algo_dollar.Orders.Env.{Env}
use algo_dollar.Orders.Exec.{Exec, pure, lift, ask, save_record, ◌>>=◌, ◌>>◌}
use algo_dollar.Orders.Resolve.{Found, unreadable, absent, present, id_or, query_broker_for_tag}

abbrev pub pre_submit_states : List OrderState
pre_submit_states = intent_created ∷ risk_check_pending ∷ risk_approved ∷ []

abbrev pub sent_states : List OrderState
sent_states = submitted ∷ acknowledged ∷ partially_filled ∷ cancel_pending ∷ unknown ∷ []

-- `x or None`
abbrev pub text_or_none : String → Option String
text_or_none s = if is_nonempty s then some s else none

module _ {F : Type 0} where
  -- One round of the loop of `_walk_to_submitted`.
  abbrev pub walk_one : OrderState → OrderRecord F → Result (OrderRecord F)
  walk_one s r =
      if state_eq r.state s
      then ok r
      else if state_in s (legal_transitions r.state)
      then transition r s "found at broker during recovery" false
      else ok r

  unfoldable pub walk_to_submitted : OrderRecord F → Result (OrderRecord F)
  walk_to_submitted r = elim (walk_one risk_check_pending r) [
    | err e ↦ err e
    | ok r1 ↦ elim (walk_one risk_approved r1) [ err e ↦ err e | ok r2 ↦ walk_one submitted r2 ]
  ]

module _ {F X : Type 0} (env : Env F X) where
  -- The broker's entry of a sent order is taken over.
  unfoldable pub adopt_recovered : OrderRecord F → BrokerOrder → Exec F X (OrderRecord F)
  adopt_recovered r o =
      let new_state = map_broker_status o.status o.filled_quantity r.qty in
      let r' = record r {
        broker_order_id = text_or_none (text_or_empty (id_or o.order_id r.broker_order_id));
        filled_qty = min_ℤ o.filled_quantity r.qty;
      } in
      if state_eq new_state unknown
      then (lift (
            if state_eq r'.state unknown
            then ok r'
            else transition r' unknown "uninterpretable broker status" false)
          >>= λ r''. save_record env r'' >> pure r'')
      else if state_eq new_state r'.state
      then save_record env r' >> pure r'
      else (lift (transition r' new_state "recovered from broker" true) >>= λ r''.
          save_record env r'' >> pure r'')

  -- A sent order, by what the book says of it.
  unfoldable pub recover_found : OrderRecord F → Found → Exec F X (OrderRecord F)
  unfolding adopt_recovered
  recover_found r unreadable =
      if state_eq r.state unknown
      then pure r
      else (lift (transition r unknown "broker unreachable at recovery" false) >>= λ r'.
          save_record env r' >> pure r')
  recover_found r absent =
      lift (
        transition r rejected "absent from broker order book at recovery"
          (state_eq r.state unknown))
      >>= λ r'. save_record env r' >> pure r'
  recover_found r (present o) = adopt_recovered r o

  unfoldable pub recover_sent : OrderRecord F → Exec F X (Option (OrderRecord F))
  unfolding recover_found
  recover_sent r =
      if state_in r.state sent_states
      then (query_broker_for_tag env r >>= λ found. recover_found r found >>= λ r'. pure (some r'))
      else pure none

  unfoldable pub abandon : OrderRecord F → Exec F X (Option (OrderRecord F))
  abandon r =
      lift (transition r risk_rejected "abandoned intent recovered at startup" false) >>= λ r'.
      save_record env r' >> pure (some r')

  -- One round of the loop; `some` is the record that is appended to the result.
  unfoldable pub recover_one : OrderRecord F → Exec F X (Option (OrderRecord F))
  unfolding recover_sent abandon
  recover_one r =
      if state_in r.state pre_submit_states
      then (query_broker_for_tag env r >>= λ found. elim found [
        | unreadable ↦ abandon r
        | absent ↦ abandon r
        | present o ↦ (lift (walk_to_submitted r) >>= λ r'. recover_sent r')
      ])
      else recover_sent r

  abbrev pub append_some : Option (OrderRecord F) → List (OrderRecord F) → List (OrderRecord F)
  append_some none rs = rs
  append_some (some r) rs = r ∷ rs

  unfoldable pub recover_all : List (OrderRecord F) → Exec F X (List (OrderRecord F))
  recover_all [] = pure []
  recover_all (r ∷ rs) =
      recover_one r >>= λ one. recover_all rs >>= λ rest. pure (append_some one rest)

  unfoldable pub recover : Exec F X (List (OrderRecord F))
  unfolding recover_all
  recover = ask env.list_open >>= λ rs. recover_all rs
