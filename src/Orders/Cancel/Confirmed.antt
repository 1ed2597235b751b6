-- ===== src/Orders/Cancel/Confirmed.antt =====
-- When `cancel_order` of order_manager.py reports that an order was cancelled.
use mathlib.Core.List.{append_assoc}
use algo_dollar.Base.{
  ◌≡◌, refl, sym, ◌∙◌, ap, subst, String, ◌<>◌, Bool, true, false, inl, inr, Option, some, [], ◌∷◌,
  ◌++◌, if◌then◌else◌, arith,
}
use algo_dollar.Errors.{Exn, order_blocked, Result, ok, err, is_ok, Result-cases}
use algo_dollar.Lifecycle.States.{cancelled, cancel_pending, state_eq, is_blocked, is_terminal}
use algo_dollar.Lifecycle.Record.{OrderRecord, transition, transition_fields}
use algo_dollar.Orders.Cancel.{request_cancel, after_cancel, cancel_recorded, cancel_order}
use algo_dollar.Orders.Env.{Env}
use algo_dollar.Orders.Exec.{
  World, Log, Exec, save_call, cancel_call, pure, raise, lift, attempt, call, save_record,
  cancel_at_broker, ◌>>=◌, ◌>>◌,
}
use algo_dollar.Orders.Exec.Gives.{
  Gives, Gives-pure, Gives-if, Gives-bind, Gives-lift, Gives-then, Gives-raise, gives_returned,
}
use algo_dollar.Orders.Exec.Runs.{bind_ok, bind_returned}
use algo_dollar.Orders.Exec.Calls.{kept_nothing}
use algo_dollar.Orders.Quiet.{get_record-IsQuiet}
use algo_dollar.Orders.Quiet.Handlers.{request_cancel-IsQuiet}
use algo_dollar.Orders.Resolve.{get_record, id_or}
use algo_dollar.Safety.Duplicates.{text_or_empty}

module _ {F X : Type 0} (env : Env F X) where
  transition_same :
      (r : OrderRecord F) (q : OrderRecord F)
      → transition r cancel_pending "cancel requested" false ≡ ok q
      → q.client_order_id ≡ r.client_order_id
  transition_same r q e = (transition_fields r cancel_pending "cancel requested" false q e).1

  -- The log of a run from `w` to `v` ends with the broker's consent and the write of the cancelled record.
  pub record IsConfirmed (r : OrderRecord F) (w v : World F X) : Type 0 where
    pub between : Log F
    pub order_id : String
    pub cancelled_record : OrderRecord F
    pub state : cancelled_record.state ≡ cancelled
    pub same_order : cancelled_record.client_order_id ≡ r.client_order_id
    pub extends :
        v.calls
        ≡ w.calls
          ++ (between ++ (cancel_call order_id, true) ∷ (save_call cancelled_record, true) ∷ [])

  -- What was called before.
  IsConfirmed-after :
      {r : OrderRecord F} (new : Log F) (w v u : World F X)
      → v.calls ≡ w.calls ++ new
      → IsConfirmed r v u
      → IsConfirmed r w u
  IsConfirmed-after new w v u e c =
      let tail : Log F =
        (cancel_call c.order_id, true) ∷ (save_call c.cancelled_record, true) ∷ [] in
      record {
        between = new ++ c.between;
        order_id = c.order_id;
        cancelled_record = c.cancelled_record;
        state = c.state;
        same_order = c.same_order;
        extends =
            c.extends
            ∙ ap (λ l. l ++ (c.between ++ tail)) e
            ∙ append_assoc w.calls new (c.between ++ tail)
            ∙ ap (λ l. w.calls ++ l) (sym (append_assoc new c.between tail));
      }

  -- A coroutine that returns `False`, if anything.
  abbrev IsRefusal : Bool → Type 0
  IsRefusal b = b ≡ false

  after_cancel_error : (r : OrderRecord F) (e : Exn) → Gives IsRefusal (after_cancel env r (err e))
  unfolding after_cancel
  after_cancel_error r e = Gives-then _ _ (λ r'. Gives-then _ _ (λ _. Gives-pure _ refl))

  after_cancel_refused : (r : OrderRecord F) → Gives IsRefusal (after_cancel env r (ok false))
  unfolding after_cancel
  after_cancel_refused r = Gives-pure _ refl

  saved_once :
      (q : OrderRecord F) (b : Bool) (w : World F X)
      → ((save_record env q >> pure b) w).0 ≡ ok true
      → ((save_record env q >> pure b) w).1.calls ≡ w.calls ++ (save_call q, true) ∷ []
  unfolding save_record call pure ◌>>=◌
  saved_once q b w h = elim (Result-cases (env.save q w.outside).0) [
    | inl (u, e) ↦ ground arith
    | inr (x, e) ↦ ground arith
  ]

  after_cancel_done :
      (r : OrderRecord F) (m : Result Bool) (w : World F X)
      → (after_cancel env r m w).0 ≡ ok true
      → (m ≡ ok true)
        × (q : OrderRecord F) × (q.state ≡ cancelled)
        × (q.client_order_id ≡ r.client_order_id)
        × ((after_cancel env r m w).1.calls ≡ w.calls ++ (save_call q, true) ∷ [])
  unfolding after_cancel lift
  after_cancel_done r (err e) w h =
      let no_consent : true ≡ false = gives_returned _ (after_cancel_error r e) w h in ground arith
  after_cancel_done r (ok false) w h =
      let no_consent : true ≡ false = gives_returned _ (after_cancel_refused r) w h in ground arith
  after_cancel_done r (ok true) w h =
      let (q, moved_, rest, same) =
        bind_returned (lift (transition r cancelled "broker confirmed cancel" false)) _ w h in
      let (state, id) = transition_fields r cancelled "broker confirmed cancel" false q moved_ in
      (
        refl,
        q,
        state,
        id,
        ap (λ (p : Result Bool × World F X). p.1.calls) same ∙ saved_once q true w rest,
      )

  request_cancel_same :
      (r : OrderRecord F)
      → Gives (λ q. q.client_order_id ≡ r.client_order_id) (request_cancel env r)
  unfolding request_cancel
  request_cancel_same r =
      Gives-if (state_eq r.state cancel_pending) _ _ (λ _. Gives-pure _ refl)
        (λ _.
          Gives-bind _ _ (Gives-lift _ (transition_same r))
            (λ r' id. Gives-then _ _ (λ _. Gives-pure _ id)))

  -- The call that asks the broker, and what its answer makes of the record.
  cancel_at : String → OrderRecord F → Exec F X Bool
  unfolding after_cancel
  cancel_at id r = attempt (cancel_at_broker env id) >>= λ answer. after_cancel env r answer

  cancel_at_done :
      (id : String) (r : OrderRecord F) (w : World F X)
      → (cancel_at id r w).0 ≡ ok true
      → (q : OrderRecord F) × (q.state ≡ cancelled)
        × (q.client_order_id ≡ r.client_order_id)
        × ((cancel_at id r w).1.calls
            ≡ w.calls ++ (cancel_call id, true) ∷ (save_call q, true) ∷ [])
  unfolding cancel_at attempt cancel_at_broker call
  cancel_at_done id r w h =
      let (answer, e, rest, same) =
        bind_returned (attempt (cancel_at_broker env id)) (λ answer. after_cancel env r answer) w
          h in
      let (consent, q, state, same_id, calls) =
        after_cancel_done r answer (attempt (cancel_at_broker env id) w).1 rest in
      let consented : (env.cancel_order id w.outside).0 ≡ ok true = ground arith in
      (
        q,
        state,
        same_id,
        ap (λ (p : Result Bool × World F X). p.1.calls) same
            ∙ calls
            ∙ ap
                (λ (m : Result Bool).
                  (w.calls ++ (cancel_call id, is_ok m) ∷ []) ++ (save_call q, true) ∷ [])
                consented
            ∙ append_assoc w.calls ((cancel_call id, true) ∷ []) ((save_call q, true) ∷ []),
      )

  sent-IsConfirmed :
      (ref : String) (r : OrderRecord F) (w : World F X)
      → let m : Exec F X Bool = request_cancel env r >>= λ r'.
          cancel_at (text_or_empty (id_or r'.broker_order_id (some ref))) r' in
        ((m w).0 ≡ ok true → IsConfirmed r w (m w).1)
  sent-IsConfirmed ref r w h =
      let (r', e, rest, same) =
        bind_returned (request_cancel env r)
          (λ r'. cancel_at (text_or_empty (id_or r'.broker_order_id (some ref))) r') w h in
      let id = text_or_empty (id_or r'.broker_order_id (some ref)) in
      let v = (request_cancel env r w).1 in
      let (q, state, same_id, calls) = cancel_at_done id r' v rest in
      let (new, grown, _, _) = (request_cancel-IsQuiet env (kept_nothing env) r).at w in
      IsConfirmed-after new w v _ grown (record {
        between = [];
        order_id = id;
        cancelled_record = q;
        state = state;
        same_order = same_id ∙ gives_returned (request_cancel env r) (request_cancel_same r) w e;
        extends = ap (λ (p : Result Bool × World F X). p.1.calls) same ∙ calls;
      })

  not_refused :
      (b : Bool) (m n : Exec F X Bool) (w : World F X)
      → Gives IsRefusal m
      → ((if b then m else n) w).0 ≡ ok true
      → (b ≡ false) × ((n w).0 ≡ ok true) × ((if b then m else n) w ≡ n w)
  not_refused true m n w g h =
      let no_consent : true ≡ false = gives_returned m g w h in ground arith
  not_refused false m n w g h = (refl, h, refl)

  cancel_recorded-IsConfirmed :
      (ref : String) (r : OrderRecord F) (w : World F X)
      → (cancel_recorded env ref r w).0 ≡ ok true
      → (is_blocked r.state ≡ false)
        × (is_terminal r.state ≡ false)
        × IsConfirmed r w (cancel_recorded env ref r w).1
  unfolding cancel_recorded cancel_at
  cancel_recorded-IsConfirmed ref r w h =
      let (unblocked, h1, same1) =
        not_refused (is_blocked r.state)
          (raise (order_blocked ("Cannot cancel " <> r.client_order_id))) _ w (Gives-raise _) h in
      let (live, h2, same2) =
        not_refused (is_terminal r.state) (pure false) _ w (Gives-pure _ refl) h1 in
      (
        unblocked,
        live,
        subst (λ (p : Result Bool × World F X). IsConfirmed r w p.1) (sym (same1 ∙ same2))
            (sent-IsConfirmed ref r w h2),
      )

  -- `cancel_order` returns `True` for an order with a record only if the order was neither in
  -- UNKNOWN nor closed, the broker has answered the cancel call with `True`, and, as the last call,
  -- the record of the order was written without an error in the state CANCELLED.
  pub cancel_order-IsConfirmed :
      (ref : String) (r : OrderRecord F) (w : World F X)
      → (get_record env ref w).0 ≡ ok (some r)
      → (cancel_order env ref w).0 ≡ ok true
      → (is_blocked r.state ≡ false)
        × (is_terminal r.state ≡ false)
        × IsConfirmed r w (cancel_order env ref w).1
  unfolding cancel_order
  cancel_order-IsConfirmed ref r w found h =
      let v = (get_record env ref w).1 in
      let run : cancel_order env ref w ≡ cancel_recorded env ref r v =
        bind_ok (get_record env ref) _
          (ap (λ (m : Result (Option (OrderRecord F))). (m, v)) found) in
      let (new, grown, _, _) = (get_record-IsQuiet env (kept_nothing env) ref).at w in
      let (unblocked, live, confirmed) =
        cancel_recorded-IsConfirmed ref r v
          (ap (λ (p : Result Bool × World F X). p.0) (sym run) ∙ h) in
      (
        unblocked,
        live,
        IsConfirmed-after new w v _ grown
            (subst (λ (p : Result Bool × World F X). IsConfirmed r v p.1) (sym run) confirmed),
      )
