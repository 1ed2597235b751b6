-- ===== src/Orders/Flatten/Once.antt =====
-- Each position that `emergency_flatten_all` of order_manager.py closes is a reservation, and at most
-- one order under the reserved id.
use algo_dollar.Base.{
  ◌≡◌, refl, ◌∙◌, ap, String, Bool, true, false, Option, none, some, List, [], ◌∷◌, ◌++◌, pos, eq_ℤ,
  if◌then◌else◌,
}
use algo_dollar.Errors.{Result, ok, err}
use algo_dollar.Double.{Double}
use algo_dollar.Lifecycle.Record.{OrderRecord, transition_fields}
use algo_dollar.Lifecycle.States.{submitted, risk_check_pending, risk_approved}
use algo_dollar.Orders.Broker.{BrokerOrder, BrokerPosition}
use algo_dollar.Orders.Env.{Env}
use algo_dollar.Orders.Exec.{World, pure, reserve_record, call}
use algo_dollar.Orders.Exec.Calls.{
  IsKept, IsQuiet, IsQuiet-bind, IsQuiet-lift, IsQuiet-pure, IsQuiet-raise, IsQuiet-save,
  IsQuiet-reserve, IsQuiet-attempt, IsQuiet-if, IsQuiet-ask, IsQuiet-engage,
}
use algo_dollar.Orders.Flatten.{
  FlattenReport, flatten_id, flatten_record, flatten_args, after_flatten, flatten_reserved,
  flatten_one, start_flatten, cancel_pending_orders, cancel_phase, symbol_of_position,
}
use algo_dollar.Orders.Quiet.{query_broker_for_tag-IsQuiet}
use algo_dollar.Orders.Quiet.Handlers.{cancel_order-IsQuiet}
use algo_dollar.Orders.Resolve.{unreadable, absent, present}
use algo_dollar.Orders.Submit.Sends.{
  MaySend, IsSender, IsSender-of_quiet, IsSender-lift, IsSender-if, MaySend-if, send_after,
  sender_end,
}
use algo_dollar.Orders.Submit.Stages.{save_then_place}

module _ {F X : Type 0} ⦃d : Double F⦄ (env : Env F X) {P : X → Type 0} (kept : IsKept env P) where
  after_flatten-IsQuiet :
      (session : String) (report : FlattenReport) (symbol : String) (r : OrderRecord F)
      (o : Result (Option String))
      → IsQuiet P (after_flatten env session report symbol r o)
  unfolding after_flatten
  after_flatten-IsQuiet session report symbol r (err e) = IsQuiet-bind _ _ (IsQuiet-lift _) (λ r'.
      IsQuiet-bind _ _
        (IsQuiet-bind _ _ (IsQuiet-save env kept r')
          (λ _. query_broker_for_tag-IsQuiet env kept r'))
        (elim [
          | unreadable ↦ IsQuiet-pure _
          | absent ↦
              IsQuiet-bind _ _ (IsQuiet-lift _)
                (λ q. IsQuiet-bind _ _ (IsQuiet-save env kept q) (λ _. IsQuiet-pure _))
          | present o ↦ IsQuiet-pure _
        ]))
  after_flatten-IsQuiet session report symbol r (ok order_id) =
      IsQuiet-bind _ _ (IsQuiet-lift _)
        (λ r'. IsQuiet-bind _ _ (IsQuiet-save env kept r') (λ _. IsQuiet-pure _))

  flatten_reserved-IsSender :
      {G : Type 0} (session : String) (report : FlattenReport) (p : BrokerPosition)
      (r : OrderRecord F)
      → r.client_order_id ≡ flatten_id env session p
      → G
      → IsSender P (flatten_args env session p) G (flatten_reserved env session report p r)
  unfolding flatten_reserved flatten_args
  flatten_reserved-IsSender session report p r c g = IsSender-lift _ _ (λ r1 e1.
      IsSender-lift _ _ (λ r2 e2. IsSender-lift _ _ (λ r3 e3.
        let (_, id1) = transition_fields r risk_check_pending "flatten" false r1 e1 in
        let (_, id2) = transition_fields r1 risk_approved "flatten override" false r2 e2 in
        let (state, id3) = transition_fields r2 submitted "flatten" false r3 e3 in
        record {
          from = λ w q.
              save_then_place env kept _ _ _ w state (id3 ∙ id2 ∙ id1 ∙ c) g q
                (after_flatten-IsQuiet session report (symbol_of_position p) r3);
        })))

  reserved_branch-IsSender :
      {G : Type 0} (session : String) (report : FlattenReport) (p : BrokerPosition) (b : Bool)
      → (b ≡ true → G)
      → IsSender P (flatten_args env session p) G (
          if b
          then flatten_reserved env session report p (flatten_record env session p)
          else pure (record report { skipped = report.skipped ++ symbol_of_position p ∷ [] }))
  unfolding flatten_record
  reserved_branch-IsSender session report p b g =
      IsSender-if b _ _
        (λ won.
          flatten_reserved-IsSender session report p (flatten_record env session p) refl (g won))
        (λ _. IsSender-of_quiet _ (IsQuiet-pure _))

  -- What stands before an order that closes a position: it is open, and its id was reserved.
  abbrev pub IsClaimed : (session : String) → BrokerPosition → X → Type 0
  IsClaimed session p x =
      (eq_ℤ p.quantity (pos 0) ≡ false)
      × ((env.reserve (flatten_record env session p) x).0 ≡ ok true)

  reserved_value :
      (r : OrderRecord F) (w : World F X) (b : Bool)
      → (reserve_record env r w).0 ≡ ok b
      → (env.reserve r w.outside).0 ≡ ok b
  unfolding reserve_record call
  reserved_value r w b h = h

  -- One position: its reservation, and at most one order, of a reservation that succeeded.
  pub flatten_one_once :
      (session : String) (report : FlattenReport) (p : BrokerPosition) (w : World F X)
      → P w.outside
      → MaySend P
          (flatten_args env session p)
          (IsClaimed session p w.outside)
          w
          (flatten_one env session report p w)
  unfolding flatten_one
  flatten_one_once session report p w q =
      let r = flatten_record env session p in
      MaySend-if (eq_ℤ p.quantity (pos 0)) _ _ w
        (λ _. (IsSender-of_quiet _ (IsQuiet-pure report)).from w q)
        (λ open_. send_after (reserve_record env r) _ w (IsQuiet-reserve env kept r) q (λ b same.
          let (_, _, _, k) = (IsQuiet-reserve env kept r).at w in
          (reserved_branch-IsSender session report p b
              (λ won. (open_, reserved_value r w b same ∙ ap ok won))).from
            (reserve_record env r w).1 (k q)))

  -- What holds after the reservation, holds at the end.
  pub flatten_one_end :
      (session : String) (report : FlattenReport) (p : BrokerPosition) (w : World F X)
      → eq_ℤ p.quantity (pos 0) ≡ false
      → P (env.reserve (flatten_record env session p) w.outside).1
      → P (flatten_one env session report p w).1.outside
  unfolding flatten_one reserve_record call
  flatten_one_end session report p w open_ q = rw open_ (
      sender_end (reserve_record env (flatten_record env session p)) _ w
        (λ b. reserved_branch-IsSender session report p b (λ _. tt)) q)

  pub start_flatten-IsQuiet : (override : Bool) → IsQuiet P (start_flatten env override)
  unfolding start_flatten
  start_flatten-IsQuiet override = IsQuiet-bind _ _ (IsQuiet-ask _) (λ active.
      IsQuiet-if active _ _ (IsQuiet-if override _ _ (IsQuiet-pure _) (IsQuiet-raise _))
        (IsQuiet-engage env kept))

  cancel_pending_orders-IsQuiet :
      (os : List BrokerOrder) (report : FlattenReport)
      → IsQuiet P (cancel_pending_orders env report os)
  unfolding cancel_pending_orders
  cancel_pending_orders-IsQuiet [] report = IsQuiet-pure _
  cancel_pending_orders-IsQuiet (o ∷ os) report =
      IsQuiet-bind _ _ (IsQuiet-attempt _ (cancel_order-IsQuiet env kept _))
        (λ result. cancel_pending_orders-IsQuiet os _)

  pub cancel_phase-IsQuiet :
      (orders : Result (Option (List (Option BrokerOrder)))) → IsQuiet P (cancel_phase env orders)
  unfolding cancel_phase
  cancel_phase-IsQuiet (err e) = IsQuiet-pure _
  cancel_phase-IsQuiet (ok none) = IsQuiet-raise _
  cancel_phase-IsQuiet (ok (some os)) =
      IsQuiet-bind _ _ (IsQuiet-lift _) (λ pending. cancel_pending_orders-IsQuiet pending _)
