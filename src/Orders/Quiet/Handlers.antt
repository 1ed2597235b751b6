-- ===== src/Orders/Quiet/Handlers.antt =====
-- Cancelling, recovering and monitoring place no order (order_manager.py).
use algo_dollar.Base.{ℕ, zero, suc, String, Bool, true, false, Option, none, some, List, [], ◌∷◌, ℤ}
use algo_dollar.Errors.{Result, ok, err}
use algo_dollar.Lifecycle.States.{OrderState}
use algo_dollar.Lifecycle.Record.{OrderRecord}
use algo_dollar.Orders.Broker.{BrokerOrder, StatusDict}
use algo_dollar.Orders.Cancel.{
  request_cancel, after_cancel, cancel_unknown_order, cancel_recorded, cancel_order,
}
use algo_dollar.Orders.Env.{Env}
use algo_dollar.Orders.Exec.{pure, lift, save_record, ◌>>=◌, ◌>>◌}
use algo_dollar.Orders.Exec.Calls.{
  IsKept, IsQuiet, IsQuiet-bind, IsQuiet-ask, IsQuiet-attempt, IsQuiet-lift, IsQuiet-if,
  IsQuiet-pure, IsQuiet-raise, IsQuiet-save, IsQuiet-status, IsQuiet-cancel,
}
use algo_dollar.Orders.Monitor.{
  Watch, observed, observe, observe_if, see_status, poll, give_up_on, give_up, watch, monitor_order,
}
use algo_dollar.Orders.Quiet.{get_record-IsQuiet, query_broker_for_tag-IsQuiet}
use algo_dollar.Orders.Recover.{
  adopt_recovered, recover_found, recover_sent, recover_one, recover_all, recover,
}
use algo_dollar.Orders.Resolve.{Found, unreadable, absent, present}

module _ {F X : Type 0} (env : Env F X) {P : X → Type 0} (kept : IsKept env P) where
  -- A fallible value, then a write of it.
  IsQuiet-lift_save :
      {A : Type 0} (m : Result (OrderRecord F)) (f : OrderRecord F → A)
      → IsQuiet P (lift m >>= λ r. save_record env r >> pure (f r))
  IsQuiet-lift_save m f =
      IsQuiet-bind _ _ (IsQuiet-lift m)
        (λ r. IsQuiet-bind _ _ (IsQuiet-save env kept r) (λ _. IsQuiet-pure _))

  pub request_cancel-IsQuiet : (r : OrderRecord F) → IsQuiet P (request_cancel env r)
  unfolding request_cancel
  request_cancel-IsQuiet r = IsQuiet-if _ _ _ (IsQuiet-pure _) (IsQuiet-lift_save _ _)

  after_cancel-IsQuiet : (r : OrderRecord F) (m : Result Bool) → IsQuiet P (after_cancel env r m)
  unfolding after_cancel
  after_cancel-IsQuiet r (err e) = IsQuiet-lift_save _ _
  after_cancel-IsQuiet r (ok true) = IsQuiet-lift_save _ _
  after_cancel-IsQuiet r (ok false) = IsQuiet-pure _

  cancel_recorded-IsQuiet :
      (ref : String) (r : OrderRecord F) → IsQuiet P (cancel_recorded env ref r)
  unfolding cancel_recorded
  cancel_recorded-IsQuiet ref r = IsQuiet-if _ _ _ (IsQuiet-raise _) (
      IsQuiet-if _ _ _ (IsQuiet-pure _) (
        IsQuiet-bind _ _ (request_cancel-IsQuiet r) (λ r'.
          IsQuiet-bind _ _ (IsQuiet-attempt _ (IsQuiet-cancel env kept _))
            (after_cancel-IsQuiet r'))))

  cancel_unknown_order-IsQuiet : (ref : String) → IsQuiet P (cancel_unknown_order env ref)
  unfolding cancel_unknown_order
  cancel_unknown_order-IsQuiet ref =
      IsQuiet-bind _ _ (IsQuiet-attempt _ (IsQuiet-cancel env kept _))
        (elim [ err e ↦ IsQuiet-pure _ | ok done ↦ IsQuiet-pure _ ])

  pub cancel_order-IsQuiet : (ref : String) → IsQuiet P (cancel_order env ref)
  unfolding cancel_order
  cancel_order-IsQuiet ref =
      IsQuiet-bind _ _ (get_record-IsQuiet env kept ref)
        (elim [ none ↦ cancel_unknown_order-IsQuiet ref | some r ↦ cancel_recorded-IsQuiet ref r ])

  adopt_recovered-IsQuiet :
      (r : OrderRecord F) (o : BrokerOrder) → IsQuiet P (adopt_recovered env r o)
  unfolding adopt_recovered
  adopt_recovered-IsQuiet r o = IsQuiet-if _ _ _ (IsQuiet-lift_save _ _) (
      IsQuiet-if _ _ _ (IsQuiet-bind _ _ (IsQuiet-save env kept _) (λ _. IsQuiet-pure _))
        (IsQuiet-lift_save _ _))

  recover_found-IsQuiet : (r : OrderRecord F) (f : Found) → IsQuiet P (recover_found env r f)
  unfolding recover_found
  recover_found-IsQuiet r unreadable = IsQuiet-if _ _ _ (IsQuiet-pure _) (IsQuiet-lift_save _ _)
  recover_found-IsQuiet r absent = IsQuiet-lift_save _ _
  recover_found-IsQuiet r (present o) = adopt_recovered-IsQuiet r o

  recover_sent-IsQuiet : (r : OrderRecord F) → IsQuiet P (recover_sent env r)
  unfolding recover_sent
  recover_sent-IsQuiet r =
      IsQuiet-if _ _ _
        (IsQuiet-bind _ _ (query_broker_for_tag-IsQuiet env kept r)
          (λ f. IsQuiet-bind _ _ (recover_found-IsQuiet r f) (λ _. IsQuiet-pure _)))
        (IsQuiet-pure _)

  pub recover_one-IsQuiet : (r : OrderRecord F) → IsQuiet P (recover_one env r)
  unfolding recover_one
  recover_one-IsQuiet r =
      IsQuiet-if _ _ _
        (IsQuiet-bind _ _ (query_broker_for_tag-IsQuiet env kept r) (elim [
          | unreadable ↦ IsQuiet-lift_save _ _
          | absent ↦ IsQuiet-lift_save _ _
          | present o ↦ IsQuiet-bind _ _ (IsQuiet-lift _) recover_sent-IsQuiet
        ]))
        (recover_sent-IsQuiet r)

  recover_all-IsQuiet : (rs : List (OrderRecord F)) → IsQuiet P (recover_all env rs)
  unfolding recover_all
  recover_all-IsQuiet [] = IsQuiet-pure _
  recover_all-IsQuiet (r ∷ rs) =
      IsQuiet-bind _ _ (recover_one-IsQuiet r)
        (λ _. IsQuiet-bind _ _ (recover_all-IsQuiet rs) (λ _. IsQuiet-pure _))

  pub recover-IsQuiet : IsQuiet P (recover env)
  unfolding recover
  recover-IsQuiet = IsQuiet-bind _ _ (IsQuiet-ask _) recover_all-IsQuiet

  observed-IsQuiet : (r : OrderRecord F) (m : Result (OrderRecord F)) → IsQuiet P (observed env r m)
  unfolding observed
  observed-IsQuiet r (err e) = IsQuiet-pure _
  observed-IsQuiet r (ok r') =
      IsQuiet-bind _ _ (IsQuiet-attempt _ (IsQuiet-save env kept r')) (λ _. IsQuiet-pure _)

  observe_if-IsQuiet :
      (order : Option (OrderRecord F)) (n : ℤ) (s : OrderState)
      → IsQuiet P (observe_if env order n s)
  unfolding observe_if observe
  observe_if-IsQuiet none n s = IsQuiet-pure _
  observe_if-IsQuiet (some r) n s =
      IsQuiet-bind _ _ (IsQuiet-if _ _ _ (observed-IsQuiet _ _) (IsQuiet-pure _))
        (λ _. IsQuiet-pure _)

  see_status-IsQuiet : (v : Watch F) (s : StatusDict F) → IsQuiet P (see_status env v s)
  unfolding see_status
  see_status-IsQuiet v s = IsQuiet-bind _ _ (observe_if-IsQuiet v.order _ _) (λ _. IsQuiet-pure _)

  poll-IsQuiet : (id : String) (v : Watch F) → IsQuiet P (poll env id v)
  unfolding poll
  poll-IsQuiet id v = IsQuiet-bind _ _ (IsQuiet-attempt _ (IsQuiet-status env kept id)) (elim [
    | err e ↦ IsQuiet-pure _
    | ok none ↦ IsQuiet-pure _
    | ok (some s) ↦ IsQuiet-bind _ _ (see_status-IsQuiet v s) (λ _. IsQuiet-pure _)
  ])

  give_up_on-IsQuiet :
      (v : Watch F) (order : Option (OrderRecord F)) → IsQuiet P (give_up_on env v order)
  unfolding give_up_on
  give_up_on-IsQuiet v none = IsQuiet-pure _
  give_up_on-IsQuiet v (some r) = IsQuiet-if _ _ _ (IsQuiet-lift_save _ _) (IsQuiet-pure _)

  give_up-IsQuiet : (v : Watch F) → IsQuiet P (give_up env v)
  unfolding give_up
  give_up-IsQuiet v = IsQuiet-if _ _ _ (IsQuiet-pure _) (give_up_on-IsQuiet v v.order)

  watch-IsQuiet : (rounds : ℕ) (id : String) (v : Watch F) → IsQuiet P (watch env rounds id v)
  unfolding watch
  watch-IsQuiet zero id v =
      IsQuiet-bind _ _ (poll-IsQuiet id v)
        (λ (v', done). IsQuiet-if _ _ _ (IsQuiet-pure _) (give_up-IsQuiet v'))
  watch-IsQuiet (suc n) id v =
      IsQuiet-bind _ _ (poll-IsQuiet id v)
        (λ (v', done). IsQuiet-if _ _ _ (IsQuiet-pure _) (watch-IsQuiet n id v'))

  pub monitor_order-IsQuiet : (rounds : ℕ) (ref : String) → IsQuiet P (monitor_order env rounds ref)
  unfolding monitor_order
  monitor_order-IsQuiet rounds ref =
      IsQuiet-bind _ _ (get_record-IsQuiet env kept ref) (λ found. watch-IsQuiet rounds _ _)
