-- ===== src/Orders/Submit/Accepted.antt =====
-- What `submit_order` (order_manager.py) does once the broker has accepted the order: the id is
-- recorded and returned, whatever the immediate fill does.
use algo_dollar.Base.{◌≡◌, refl, String, Bool, true, false, none, some, is_nonempty, if◌then◌else◌}
use algo_dollar.Errors.{Result, ok, err}
use algo_dollar.Double.{Double}
use algo_dollar.Lifecycle.Record.{OrderRecord, moved_to}
use algo_dollar.Lifecycle.States.{submitted, acknowledged}
use algo_dollar.Orders.Broker.{StatusDict}
use algo_dollar.Orders.Env.{Env, Settings}
use algo_dollar.Orders.Exec.{World, Exec, pure, attempt, ◌>>=◌}
use algo_dollar.Orders.Exec.Calls.{kept_nothing}
use algo_dollar.Orders.Exec.Does.{
  Does, Does-pure, Does-lift, Does-quiet, Does-if_true, Does-then, Saves, Does-save,
  transition_moves,
}
use algo_dollar.Orders.Fill.{apply_any_immediate_fill, apply_status}
use algo_dollar.Orders.Quiet.{apply_any_immediate_fill-IsQuiet}
use algo_dollar.Orders.Submit.{after_place}

-- The coroutine returns one value, from every state.
record Returns {F X A : Type 0} (a : A) (m : Exec F X A) : Type 0 where
  at : (w : World F X) → (m w).0 ≡ ok a

module _ {F X A : Type 0} {a : A} where
  Returns-pure : Returns {F = F} {X = X} a (pure a)
  unfolding pure
  Returns-pure = record { at = λ w. refl }

  Returns-if :
      (b : Bool) (m k : Exec F X A) → Returns a m → Returns a k → Returns a (if b then m else k)
  Returns-if true m k rm rk = rm
  Returns-if false m k rm rk = rk

module _ {F X A B : Type 0} {b : B} where
  Returns-attempt :
      (m : Exec F X A) (f : Result A → Exec F X B)
      → ((o : Result A) → Returns b (f o))
      → Returns b (attempt m >>= f)
  unfolding attempt ◌>>=◌
  Returns-attempt m f rest = record { at = λ w. (rest (m w).0).at (m w).1 }

module _ {F X : Type 0} ⦃d : Double F⦄ (env : Env F X) where
  -- No failure of the immediate fill reaches the caller.
  apply_status-Returns :
      (r : OrderRecord F) (id : String) (s : StatusDict F) → Returns tt (apply_status env r id s)
  unfolding apply_status
  apply_status-Returns r id s =
      Returns-if _ _ _ Returns-pure
        (Returns-if _ _ _ Returns-pure (Returns-attempt _ _ (λ o. Returns-pure)))

  immediate_fill-Returns : (r : OrderRecord F) → Returns tt (apply_any_immediate_fill env r)
  unfolding apply_any_immediate_fill
  immediate_fill-Returns r = Returns-if _ _ _ Returns-pure (
      Returns-attempt _ _ (elim [
        | err e ↦ Returns-pure
        | ok none ↦ Returns-pure
        | ok (some s) ↦ apply_status-Returns r _ s
      ]))

module _ {F X : Type 0} ⦃d : Double F⦄ (env : Env F X) (settings : Settings F) {P : X → Type 0}
    {cid : String} (saves : Saves env cid P) where
  pub after_place-Does :
      (r : OrderRecord F) (id : String)
      → r.state ≡ submitted
      → r.client_order_id ≡ cid
      → is_nonempty id ≡ true
      → Does P (λ o. o ≡ some id) (λ _. Unit {0}) 0 (after_place env settings r (ok (some id)))
  unfolding after_place moved_to
  after_place-Does r id s same named = Does-if_true (is_nonempty id) _ _ named (
      Does-then _ _
        (Does-lift {Q = λ q. (q.broker_order_id ≡ some id) × (q.client_order_id ≡ cid)} _ _
          (transition_moves (record r { broker_order_id = some id }) acknowledged "broker accepted"
            false (rw s refl))
          (refl, same))
        (λ r' (e, same').
          Does-then _ _
            (Does-then _ _ (Does-save env saves r' same') (λ _ _.
              Does-quiet {Q = λ _. Unit {0}} _
                (apply_any_immediate_fill-IsQuiet env (kept_nothing env) r')
                (λ w. (tt, (immediate_fill-Returns env r').at w, tt))))
            (λ _ _. Does-pure _ e)))
