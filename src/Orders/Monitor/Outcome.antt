-- ===== src/Orders/Monitor/Outcome.antt =====
-- What `monitor_order` of order_manager.py reports.
use algo_dollar.Base.{
  ℕ, zero, suc, ◌≡◌, refl, String, Bool, true, false, not, ◌&&◌, Option, none, some, arith,
}
use algo_dollar.Errors.{ok, err}
use algo_dollar.Lifecycle.States.{state_in, is_terminal, is_blocked}
use algo_dollar.Lifecycle.Record.{OrderRecord}
use algo_dollar.Orders.Env.{Env}
use algo_dollar.Orders.Exec.{World}
use algo_dollar.Orders.Exec.Gives.{
  Gives, Gives-pure, Gives-if, Gives-bind, Gives-then, gives_returned,
}
use algo_dollar.Orders.Monitor.{
  Watch, MonitorResult, final_states, poll, give_up, give_up_on, watch, monitor_order,
}

module _ {F X : Type 0} (env : Env F X) where
  -- What holds of the loop's variables while it runs: a polled state is not final.
  abbrev IsRunning : Watch F → Type 0
  IsRunning v = v.has_polled ≡ true → state_in v.state final_states ≡ false

  abbrev IsPolled : Watch F × Bool → Type 0
  IsPolled (v, done) =
      (done ≡ false → IsRunning v) × (done ≡ true → state_in v.state final_states ≡ true)

  abbrev IsConsistent : MonitorResult → Type 0
  IsConsistent m = m.is_final ≡ not m.timed_out

  poll_running : (id : String) (v : Watch F) → IsRunning v → Gives IsPolled (poll env id v)
  unfolding poll
  poll_running id v run = Gives-then _ _ (elim [
    | err e ↦ Gives-pure _ ((λ _. run), (λ h. ground arith))
    | ok none ↦ Gives-pure _ ((λ _. run), (λ h. ground arith))
    | ok (some s) ↦ Gives-then _ _ (λ v'. Gives-pure _ ((λ h _. h), (λ h. h)))
  ])

  give_up_on-IsConsistent :
      (v : Watch F) (order : Option (OrderRecord F)) → Gives IsConsistent (give_up_on env v order)
  unfolding give_up_on
  give_up_on-IsConsistent v none = Gives-pure _ refl
  give_up_on-IsConsistent v (some r) =
      Gives-if (not (is_terminal r.state) && not (is_blocked r.state)) _ _
        (λ _. Gives-then _ _ (λ r'. Gives-then _ _ (λ _. Gives-pure _ refl)))
        (λ _. Gives-pure _ refl)

  give_up-IsConsistent : (v : Watch F) → IsRunning v → Gives IsConsistent (give_up env v)
  unfolding give_up
  give_up-IsConsistent v run =
      Gives-if v.has_polled _ _ (λ polled. Gives-pure _ (run polled))
        (λ _. give_up_on-IsConsistent v v.order)

  watch-IsConsistent :
      (rounds : ℕ) (id : String) (v : Watch F)
      → IsRunning v
      → Gives IsConsistent (watch env rounds id v)
  unfolding watch
  watch-IsConsistent zero id v run = Gives-bind _ _ (poll_running id v run) (λ (v', done) p.
      Gives-if done _ _ (λ ended. Gives-pure _ (p.1 ended))
        (λ running. give_up-IsConsistent v' (p.0 running)))
  watch-IsConsistent (suc n) id v run = Gives-bind _ _ (poll_running id v run) (λ (v', done) p.
      Gives-if done _ _ (λ ended. Gives-pure _ (p.1 ended))
        (λ running. watch-IsConsistent n id v' (p.0 running)))

  -- Whatever the broker answers to the polls, a result says that the order is final exactly if it
  -- does not say that the watch timed out: a final state is never reported after a time-out, and
  -- the watch ends before the deadline only in a final state.
  pub monitor_order_consistent :
      (rounds : ℕ) (order_ref : String) (w : World F X) {m : MonitorResult}
      → (monitor_order env rounds order_ref w).0 ≡ ok m
      → m.is_final ≡ not m.timed_out
  unfolding monitor_order
  monitor_order_consistent rounds order_ref w h =
      gives_returned (monitor_order env rounds order_ref)
        (Gives-then _ _ (λ found. watch-IsConsistent rounds _ _ (λ h. ground arith))) w h
