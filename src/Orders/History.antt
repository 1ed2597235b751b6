-- ===== src/Orders/History.antt =====
-- Any sequence of calls of the order manager (order_manager.py), with the exceptions that the callers
-- catch: what it places at the broker.
use algo_dollar.Base.{ℕ, ◌≤◌, ◌≡◌, String, Bool, inl, inr, List, [], ◌∷◌, ◌++◌, ℤ, arith}
use algo_dollar.Errors.{Result, ok, err}
use algo_dollar.Double.{Double}
use algo_dollar.Lifecycle.Store.{FillData}
use algo_dollar.Orders.Cancel.{cancel_order}
use algo_dollar.Orders.Env.{Env, Settings}
use algo_dollar.Orders.Exec.{Log, World}
use algo_dollar.Orders.Fill.{handle_fill}
use algo_dollar.Orders.Monitor.{monitor_order}
use algo_dollar.Orders.Pricing.{Signal}
use algo_dollar.Orders.Quiet.{handle_fill-IsQuiet}
use algo_dollar.Orders.Quiet.Handlers.{cancel_order-IsQuiet, recover-IsQuiet, monitor_order-IsQuiet}
use algo_dollar.Orders.Recover.{recover}
use algo_dollar.Orders.Submit.{Account, submit_order, new_record, place_args}
use algo_dollar.Orders.Submit.Once.{submit_order_once, reserved_to_end}
use algo_dollar.Orders.Broker.{BrokerPosition}
use algo_dollar.Orders.Exec.Calls.{
  IsQuiet-bind, IsQuiet-attempt, IsQuiet-pure, IsQuiet-orders, IsQuiet-positions,
}
use algo_dollar.Orders.Flatten.{
  FlattenReport, emergency_flatten_all, position_phase, flatten_positions, flatten_one,
  flatten_record, flatten_args,
}
use algo_dollar.Orders.Flatten.Once.{
  flatten_one_once, flatten_one_end, start_flatten-IsQuiet, cancel_phase-IsQuiet,
}
use algo_dollar.Orders.Placed.{
  placed_as, ClaimsOnce, kept_under, Step, Step-refl, Step-then, Step-of_quiet, Step-of_sends,
  Step-of_bind,
}

pub data Operation (F : Type 0) : Type 0 where
  submitting : Signal F → ℤ → Account F → Operation F
  filling : (order_ref : String) → FillData F → Operation F
  cancelling : (order_ref : String) → Operation F
  recovering : Operation F
  monitoring : (rounds : ℕ) → (order_ref : String) → Operation F
  flattening : (override : Bool) → (session : String) → Operation F

module _ {F X : Type 0} ⦃d : Double F⦄ (env : Env F X) (settings : Settings F) where
  -- The state after a call, whether it returned or raised.
  unfoldable pub run_operation : Operation F → World F X → World F X
  run_operation (submitting sig size account) w = (submit_order env settings sig size account w).1
  run_operation (filling order_ref fill) w = (handle_fill env order_ref fill w).1
  run_operation (cancelling order_ref) w = (cancel_order env order_ref w).1
  run_operation recovering w = (recover env w).1
  run_operation (monitoring rounds order_ref) w = (monitor_order env rounds order_ref w).1
  run_operation (flattening override session) w = (emergency_flatten_all env override session w).1

  unfoldable pub run_operations : List (Operation F) → World F X → World F X
  unfolding run_operation
  run_operations [] w = w
  run_operations (o ∷ os) w = run_operations os (run_operation o w)

module _ {F X : Type 0} ⦃d : Double F⦄ (env : Env F X) (cid : String) {Claimed : X → Type 0}
    (store : ClaimsOnce env cid Claimed) where
  Step-of_submit :
      (settings : Settings F) (sig : Signal F) (size : ℤ) (account : Account F) (w : World F X)
      → Step cid Claimed w (submit_order env settings sig size account w).1
  unfolding new_record place_args
  Step-of_submit settings sig size account w =
      Step-of_sends w _
        (submit_order_once env settings (kept_under env (Claimed w.outside) store.kept) sig size
          account w (λ c. c))
        (λ same g. (
          λ c. store.refuses (new_record env settings sig size) w.outside same c g.reserved,
          reserved_to_end env settings store.kept sig size account w g.eligible g.reserved
              (store.claims (new_record env settings sig size) w.outside same g.reserved),
        ))

  Step-of_flatten_one :
      (session : String) (report : FlattenReport) (p : BrokerPosition) (w : World F X)
      → Step cid Claimed w (flatten_one env session report p w).1
  unfolding flatten_record flatten_args
  Step-of_flatten_one session report p w =
      Step-of_sends w _
        (flatten_one_once env (kept_under env (Claimed w.outside) store.kept) session report p w
          (λ c. c))
        (λ same g. (
          λ c. store.refuses (flatten_record env session p) w.outside same c g.1,
          flatten_one_end env store.kept session report p w g.0
              (store.claims (flatten_record env session p) w.outside same g.1),
        ))

  Step-of_positions :
      (session : String) (ps : List BrokerPosition) (report : FlattenReport) (w : World F X)
      → Step cid Claimed w (flatten_positions env session report ps w).1
  unfolding flatten_positions
  Step-of_positions session [] report w = Step-of_quiet _ w (IsQuiet-pure report)
  Step-of_positions session (p ∷ ps) report w =
      Step-of_bind _ _ w (Step-of_flatten_one session report p w)
        (λ report' v. Step-of_positions session ps report' v)

  Step-of_position_phase :
      (session : String) (report : FlattenReport) (m : Result (List BrokerPosition)) (w : World F X)
      → Step cid Claimed w (position_phase env session report m w).1
  unfolding position_phase
  Step-of_position_phase session report (err e) w = Step-of_quiet _ w (IsQuiet-pure _)
  Step-of_position_phase session report (ok ps) w = Step-of_positions session ps report w

  Step-of_flatten :
      (override : Bool) (session : String) (w : World F X)
      → Step cid Claimed w (emergency_flatten_all env override session w).1
  unfolding emergency_flatten_all
  Step-of_flatten override session w =
      Step-of_bind _ _ w
        (Step-of_quiet _ w (
          IsQuiet-bind _ _ (start_flatten-IsQuiet env store.kept override)
            (λ _. IsQuiet-attempt _ (IsQuiet-orders env store.kept))))
        (λ orders v.
          Step-of_bind _ _ v (Step-of_quiet _ v (cancel_phase-IsQuiet env store.kept orders))
            (λ report u.
              Step-of_bind _ _ u
                (Step-of_quiet _ u (IsQuiet-attempt _ (IsQuiet-positions env store.kept)))
                (λ positions t. Step-of_position_phase session report positions t)))

module _ {F X : Type 0} ⦃d : Double F⦄ (env : Env F X) (settings : Settings F) (cid : String)
    {Claimed : X → Type 0} (store : ClaimsOnce env cid Claimed) where
  Step-of : (o : Operation F) (w : World F X) → Step cid Claimed w (run_operation env settings o w)
  unfolding run_operation
  Step-of (submitting sig size account) w = Step-of_submit env cid store settings sig size account w
  Step-of (filling order_ref fill) w =
      Step-of_quiet _ w (handle_fill-IsQuiet env store.kept order_ref fill)
  Step-of (cancelling order_ref) w =
      Step-of_quiet _ w (cancel_order-IsQuiet env store.kept order_ref)
  Step-of recovering w = Step-of_quiet _ w (recover-IsQuiet env store.kept)
  Step-of (monitoring rounds order_ref) w =
      Step-of_quiet _ w (monitor_order-IsQuiet env store.kept rounds order_ref)
  Step-of (flattening override session) w = Step-of_flatten env cid store override session w

  Step-of_all :
      (os : List (Operation F)) (w : World F X)
      → Step cid Claimed w (run_operations env settings os w)
  unfolding run_operations
  Step-of_all [] w = Step-refl w
  Step-of_all (o ∷ os) w = Step-then w _ _ (Step-of o w) (Step-of_all os _)

  -- Whatever sequence of submissions, fills, cancellations, recoveries, polls and emergency flattens
  -- is run, with the same signal or session any number of times, and however many of the calls
  -- raise, at most one order is placed at the broker under a client order id, given that the store
  -- lets the id be reserved once.
  pub placed_once :
      (os : List (Operation F)) (w : World F X)
      → (log : Log F) × ((run_operations env settings os w).calls ≡ w.calls ++ log)
        × (placed_as cid log ≤ 1)
  placed_once os w =
      let s = Step-of_all os w in
      (s.log, s.extends, elim s.at_most_one [ inl n ↦ omega arith | inr (n, c) ↦ omega arith ])
