-- ===== src/Orders/Recover/Absent.antt =====
-- A sent order that the broker's order book does not list, at `recover` of order_manager.py.
use algo_dollar.Base.{
  ◌≡◌, refl, sym, subst, inl, inr, ◌∙◌, ap, String, Bool, true, false, Option, some, List, [], ◌∷◌,
  ◌++◌, arith,
}
use algo_dollar.Errors.{Exn, illegal_transition, Result-cases, ok, err, is_ok}
use algo_dollar.Lifecycle.States.{
  OrderState, partially_filled, rejected, unknown, state_eq, state_in,
}
use algo_dollar.Lifecycle.Record.{OrderRecord, transition}
use algo_dollar.Lifecycle.Transitions.{assert_transition}
use algo_dollar.Orders.Broker.{BrokerOrder}
use algo_dollar.Orders.Env.{Env}
use algo_dollar.Orders.Exec.{World, Exec, pure, lift, attempt, query, ◌>>=◌}
use algo_dollar.Orders.Recover.{
  recover_one, recover_sent, recover_found, recover_all, append_some, sent_states,
  pre_submit_states,
}
use algo_dollar.Orders.Resolve.{absent, find_in_book, query_broker_for_tag}
use algo_dollar.Orders.Exec.Runs.{bind_ok, bind_err}

module _ {F X : Type 0} (env : Env F X) where
  -- The book can be read, and does not list the order.
  pub record IsAbsent (r : OrderRecord F) (x : X) : Type 0 where
    pub book : List (Option BrokerOrder)
    pub read : (env.get_orders x).0 ≡ ok (some book)
    pub unlisted : find_in_book r book ≡ absent

  -- The state after a look at the book.
  abbrev pub looked : World F X → World F X
  looked w = record w { outside = (env.get_orders w.outside).1 }

  query-absent :
      (r : OrderRecord F) (w : World F X)
      → IsAbsent r w.outside
      → query_broker_for_tag env r w ≡ (ok absent, looked w)
  unfolding query_broker_for_tag attempt query pure ◌>>=◌
  query-absent r w a = rw a.read (rw a.unlisted refl)

  sent_not_pre :
      (s : OrderState) → state_in s sent_states ≡ true → state_in s pre_submit_states ≡ false
  sent_not_pre s h = ground arith

  recover_one_sent :
      (r : OrderRecord F)
      → state_in r.state sent_states ≡ true
      → recover_one env r ≡ (
          query_broker_for_tag env r >>= λ found.
          recover_found env r found >>= λ r'. pure (some r'))
  unfolding recover_one recover_sent
  recover_one_sent r h = rw (sent_not_pre r.state h) (rw h refl)

  abbrev no_such_move : Exn
  no_such_move = illegal_transition "Illegal transition PARTIALLY_FILLED -> REJECTED."

  assert_partial :
      (s : OrderState) (reconciled : Bool)
      → s ≡ partially_filled
      → assert_transition s rejected reconciled ≡ err no_such_move
  unfolding assert_transition
  assert_partial s reconciled h = rw h refl

  transition_partial :
      (r : OrderRecord F) (reason : String) (reconciled : Bool)
      → r.state ≡ partially_filled
      → transition r rejected reason reconciled ≡ err no_such_move
  unfolding transition
  transition_partial r reason reconciled h = rw (assert_partial r.state reconciled h) refl

  recover_one-absent :
      (r : OrderRecord F) (w : World F X)
      → state_in r.state sent_states ≡ true
      → IsAbsent r w.outside
      → recover_one env r w ≡ (recover_found env r absent >>= λ r'. pure (some r')) (looked w)
  recover_one-absent r w sent a =
      ap (λ (m : Exec F X (Option (OrderRecord F))). m w) (recover_one_sent r sent)
      ∙ bind_ok _ _ (query-absent r w a)

  recover_none : (w : World F X) → (recover_all env [] w).1 ≡ w
  unfolding recover_all pure
  recover_none w = refl

  then_pure-same :
      {A B : Type 0} (m : Exec F X A) (f : A → B) (v : World F X)
      → (is_ok ((m >>= λ a. pure (f a)) v).0 ≡ is_ok (m v).0)
        × (((m >>= λ a. pure (f a)) v).1 ≡ (m v).1)
  unfolding ◌>>=◌ pure
  then_pure-same m f v = elim (Result-cases (m v).0) [
    | inl (a, e) ↦ (rw e refl, rw e refl)
    | inr (x, e) ↦ (rw e refl, rw e refl)
  ]

  -- At the head of the list.
  partial_first :
      (r : OrderRecord F) (rs : List (OrderRecord F)) (w : World F X)
      → r.state ≡ partially_filled
      → IsAbsent r w.outside
      → (is_ok (recover_all env (r ∷ rs) w).0 ≡ false) × ((recover_all env (r ∷ rs) w).1 ≡ looked w)
  unfolding recover_all recover_found lift ◌>>=◌
  partial_first r rs w partial a =
      let sent : state_in r.state sent_states ≡ true = rw partial refl in
      let run = recover_one-absent r w sent a in
      let stuck =
        transition_partial r "absent from broker order book at recovery" (state_eq r.state unknown)
          partial in
      (rw run (rw stuck refl), rw run (rw stuck refl))

  -- The orders after one that was recovered.
  recover_all-step :
      (b : OrderRecord F) (bs : List (OrderRecord F)) (w v : World F X)
      (one : Option (OrderRecord F))
      → recover_one env b w ≡ (ok one, v)
      → (is_ok (recover_all env (b ∷ bs) w).0 ≡ is_ok (recover_all env bs v).0)
        × ((recover_all env (b ∷ bs) w).1 ≡ (recover_all env bs v).1)
  unfolding recover_all
  recover_all-step b bs w v one e =
      let run = bind_ok (recover_one env b) _ e in
      let (same, here) = then_pure-same (recover_all env bs) (append_some env one) v in
      (ap (λ p. is_ok p.0) run ∙ same, ap (λ p. p.1) run ∙ here)

  recover_all-stop :
      (b : OrderRecord F) (bs : List (OrderRecord F)) (w v : World F X) (e : Exn)
      → recover_one env b w ≡ (err e, v)
      → recover_all env (b ∷ bs) w ≡ (err e, v)
  unfolding recover_all
  recover_all-stop b bs w v e h = bind_err (recover_one env b) _ h

  -- A partially filled order that the readable book does not list, when the recovery of the orders
  -- before it is over, is not closed: the table has no move from PARTIALLY_FILLED to REJECTED.
  -- Wherever it stands among the orders, their recovery raises, and has called nothing but what the
  -- recovery of the orders before it calls; the orders after it are not looked at.
  pub recover_all-partial :
      (before : List (OrderRecord F)) (r : OrderRecord F) (rs : List (OrderRecord F))
      (w : World F X)
      → r.state ≡ partially_filled
      → IsAbsent r (recover_all env before w).1.outside
      → (is_ok (recover_all env (before ++ r ∷ rs) w).0 ≡ false)
        × ((recover_all env (before ++ r ∷ rs) w).1.calls ≡ (recover_all env before w).1.calls)
  recover_all-partial [] r rs w partial a =
      let (raised, here) =
        partial_first r rs w partial (subst (λ v. IsAbsent r v.outside) (recover_none w) a) in
      (raised, ap (λ v. v.calls) here ∙ sym (ap (λ v. v.calls) (recover_none w)))
  recover_all-partial (b ∷ bs) r rs w partial a = elim (Result-cases (recover_one env b w).0) [
    | inl (one, e) ↦
        let v = (recover_one env b w).1 in
        let run : recover_one env b w ≡ (ok one, v) = ap (λ m. (m, v)) e in
        let (_, here) = recover_all-step b bs w v one run in
        let (same, there) = recover_all-step b (bs ++ r ∷ rs) w v one run in
        let (raised, calls) =
          recover_all-partial bs r rs v partial (subst (λ u. IsAbsent r u.outside) here a) in
        (same ∙ raised, ap (λ u. u.calls) there ∙ calls ∙ sym (ap (λ u. u.calls) here))
    | inr (x, e) ↦
        let v = (recover_one env b w).1 in
        let run : recover_one env b w ≡ (err x, v) = ap (λ m. (m, v)) e in
        let there = recover_all-stop b (bs ++ r ∷ rs) w v x run in
        let here = recover_all-stop b bs w v x run in
        (ap (λ p. is_ok p.0) there, ap (λ p. p.1.calls) there ∙ sym (ap (λ p. p.1.calls) here))
  ]
