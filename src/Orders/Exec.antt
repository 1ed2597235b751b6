-- ===== src/Orders/Exec.antt =====
-- A coroutine of the order manager: it reads and changes the state behind the interfaces, may raise,
-- and leaves a log of the calls that change something outside (order_manager.py).
pub mod Calls
pub mod Runs
pub mod Does
pub mod Gives
pub mod Grows
use algo_dollar.Base.{
  String, Bool, true, false, Option, none, some, List, [], ◌∷◌, ◌++◌, ℤ, if◌then◌else◌,
}
use algo_dollar.Base.Dict.{Dict}
use algo_dollar.Errors.{Exn, Result, ok, err, is_ok}
use algo_dollar.Lifecycle.Record.{OrderRecord}
use algo_dollar.Lifecycle.Store.{FillData, Position}
use algo_dollar.Orders.Broker.{PlaceArgs, BrokerOrder, Quote, StatusDict}
use algo_dollar.Orders.Env.{Env}
use algo_dollar.Safety.KillSwitch.{engage_kill_switch}

-- A call on the store or the broker.
pub data Call (F : Type 0) : Type 0 where
  reserve_call save_call : OrderRecord F → Call F
  trade_call : (cid : String) → FillData F → Call F
  position_call : (symbol exchange product : String) → ℤ → F → Call F
  place_call : PlaceArgs F → Call F
  cancel_call : String → Call F
  engage_call : Call F

-- The calls in order, each with whether it returned; a call that raised may still have had effect.
abbrev pub Log : Type 0 → Type 0
Log F = List (Call F × Bool)

pub record World (F X : Type 0) : Type 0 where
  pub outside : X
  pub calls : Log F

abbrev pub Exec : (F X : Type 0) → Type 0 → Type 0
Exec F X A = World F X → Result A × World F X

module _ {F X : Type 0} where
  unfoldable pub pure : {A : Type 0} → A → Exec F X A
  pure a w = (ok a, w)

  unfoldable pub raise : {A : Type 0} → Exn → Exec F X A
  raise e w = (err e, w)

  unfoldable pub lift : {A : Type 0} → Result A → Exec F X A
  lift r w = (r, w)

  -- `try: await m` with a handler for every exception, which the caller matches on.
  unfoldable pub attempt : {A : Type 0} → Exec F X A → Exec F X (Result A)
  attempt m w = let (r, w') = m w in (ok r, w')

  -- A call that only reads.
  unfoldable pub ask : {A : Type 0} → (X → Result A) → Exec F X A
  ask f w = (f w.outside, w)

  -- A call that changes the broker's own state only, such as a look at its book.
  unfoldable pub query : {A : Type 0} → (X → Result A × X) → Exec F X A
  query f w = let (r, x) = f w.outside in (r, record w { outside = x })

  -- A call that is logged.
  unfoldable pub call : {A : Type 0} → Call F → (X → Result A × X) → Exec F X A
  call c f w =
      let (r, x) = f w.outside in (r, record { outside = x; calls = w.calls ++ (c, is_ok r) ∷ [] })

module _ {F X A B : Type 0} where
  abbrev pub continue : Result A → (A → Exec F X B) → Exec F X B
  continue (ok a) f w = f a w
  continue (err e) f w = (err e, w)

  infixl 5 ◌>>=◌ ◌>>◌
  unfoldable pub ◌>>=◌ : Exec F X A → (A → Exec F X B) → Exec F X B
  ◌>>=◌ m f w = let (r, w') = m w in continue r f w'

  abbrev pub ◌>>◌ : Exec F X A → Exec F X B → Exec F X B
  m >> k = m >>= λ _. k

module _ {F X : Type 0} (env : Env F X) where
  unfoldable pub reserve_record : OrderRecord F → Exec F X Bool
  reserve_record r = call (reserve_call r) (env.reserve r)

  -- `self._store.save(record)`, also as `_update_order_status`
  unfoldable pub save_record : OrderRecord F → Exec F X (Unit {0})
  save_record r = call (save_call r) (env.save r)

  -- `_record_trade`
  unfoldable pub record_trade : String → FillData F → Exec F X Bool
  record_trade cid fill = call (trade_call cid fill) (env.record_trade cid fill)

  unfoldable pub apply_position_delta : String → String → String → ℤ → F → Exec F X (Position F)
  apply_position_delta symbol exchange product change price =
      call (position_call symbol exchange product change price)
        (env.apply_position_delta symbol exchange product change price)

  unfoldable pub place_order : PlaceArgs F → Exec F X (Option String)
  place_order args = call (place_call args) (env.place_order args)

  unfoldable pub cancel_at_broker : String → Exec F X Bool
  cancel_at_broker id = call (cancel_call id) (env.cancel_order id)

  -- `self._safety.engage_kill_switch(...)`
  unfoldable pub engage_switch : Exec F X (Unit {0})
  engage_switch = call engage_call (engage_kill_switch env.switch)
