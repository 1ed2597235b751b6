-- ===== src/Orders/Exec/Calls.antt =====
-- What a coroutine calls, rule by rule: those that place no order, and keep a property of the state
-- behind the interfaces.
use mathlib.Core.List.{append-nil, append_assoc}
use algo_dollar.Base.{
  ℕ, ◌+◌, ◌≡◌, refl, sym, ◌∙◌, ap, String, Bool, true, false, [], ◌∷◌, ◌++◌, ℤ, count_if,
  count_if-append, if◌then◌else◌, arith,
}
use algo_dollar.Errors.{Exn, Result, ok, err, is_ok}
use algo_dollar.Lifecycle.Record.{OrderRecord}
use algo_dollar.Lifecycle.Store.{FillData}
use algo_dollar.Orders.Broker.{PlaceArgs}
use algo_dollar.Orders.Env.{Env}
use algo_dollar.Safety.KillSwitch.{engage_kill_switch}
use algo_dollar.Orders.Exec.{
  Call, reserve_call, save_call, trade_call, position_call, place_call, cancel_call, engage_call,
  engage_switch, Log, World, Exec, pure, raise, lift, attempt, ask, query, call, continue, ◌>>=◌,
  reserve_record, save_record, record_trade, apply_position_delta, cancel_at_broker,
}

module _ {F : Type 0} where
  abbrev pub is_place : Call F → Bool
  is_place (place_call _) = true
  is_place _ = false

  -- How many orders were placed.
  abbrev pub places : Log F → ℕ
  places log = count_if (λ c. is_place c.0) log

  pub places-append : (xs ys : Log F) → places (xs ++ ys) ≡ places xs + places ys
  places-append xs ys = count_if-append (λ c. is_place c.0) xs ys

module _ {F X : Type 0} (env : Env F X) where
  -- Each call on an interface keeps a property of the state behind it.
  pub record IsKept (P : X → Type 0) : Type 0 where
    pub by_reserve : (r : OrderRecord F) (x : X) → P x → P (env.reserve r x).1
    pub by_save : (r : OrderRecord F) (x : X) → P x → P (env.save r x).1
    pub by_trade : (cid : String) (f : FillData F) (x : X) → P x → P (env.record_trade cid f x).1
    pub by_position :
        (symbol exchange product : String) (change : ℤ) (price : F) (x : X)
        → P x
        → P (env.apply_position_delta symbol exchange product change price x).1
    pub by_quote : (key : String) (x : X) → P x → P (env.get_quote key x).1
    pub by_place : (args : PlaceArgs F) (x : X) → P x → P (env.place_order args x).1
    pub by_orders : (x : X) → P x → P (env.get_orders x).1
    pub by_positions : (x : X) → P x → P (env.get_positions x).1
    pub by_engage : (x : X) → P x → P (engage_kill_switch env.switch x).1
    pub by_cancel : (id : String) (x : X) → P x → P (env.cancel_order id x).1
    pub by_status : (id : String) (x : X) → P x → P (env.get_order_status id x).1

module _ {F X : Type 0} (env : Env F X) where
  -- Nothing is asked of the state.
  pub kept_nothing : IsKept env (λ _. Unit {0})
  kept_nothing = record {
    by_reserve = λ r x p. tt;
    by_save = λ r x p. tt;
    by_trade = λ c f x p. tt;
    by_position = λ s e c n v x p. tt;
    by_quote = λ s x p. tt;
    by_place = λ b x p. tt;
    by_orders = λ x p. tt;
    by_positions = λ x p. tt;
    by_engage = λ x p. tt;
    by_cancel = λ i x p. tt;
    by_status = λ i x p. tt;
  }

module _ {F X : Type 0} (P : X → Type 0) where
  -- The coroutine places no order and keeps the property, whether it returns or raises.
  pub record IsQuiet {A : Type 0} (m : Exec F X A) : Type 0 where
    pub at :
        (w : World F X)
        → (new : Log F) × ((m w).1.calls ≡ w.calls ++ new)
          × (places new ≡ 0)
          × (P w.outside → P (m w).1.outside)

module _ {F X : Type 0} {P : X → Type 0} where
  pub IsQuiet-pure : {A : Type 0} (a : A) → IsQuiet {F = F} P (pure a)
  unfolding pure
  IsQuiet-pure a = record { at = λ w. ([], sym (append-nil w.calls), refl, λ p. p) }

  pub IsQuiet-raise : {A : Type 0} (e : Exn) → IsQuiet {F = F} P (raise {A = A} e)
  unfolding raise
  IsQuiet-raise e = record { at = λ w. ([], sym (append-nil w.calls), refl, λ p. p) }

  pub IsQuiet-lift : {A : Type 0} (r : Result A) → IsQuiet {F = F} P (lift r)
  unfolding lift
  IsQuiet-lift r = record { at = λ w. ([], sym (append-nil w.calls), refl, λ p. p) }

  pub IsQuiet-ask : {A : Type 0} (f : X → Result A) → IsQuiet {F = F} P (ask f)
  unfolding ask
  IsQuiet-ask f = record { at = λ w. ([], sym (append-nil w.calls), refl, λ p. p) }

  pub IsQuiet-attempt : {A : Type 0} (m : Exec F X A) → IsQuiet P m → IsQuiet P (attempt m)
  unfolding attempt
  IsQuiet-attempt m q = record { at = λ w. q.at w }

  pub IsQuiet-query :
      {A : Type 0} (f : X → Result A × X)
      → ((x : X) → P x → P (f x).1)
      → IsQuiet {F = F} P (query f)
  unfolding query
  IsQuiet-query f k = record { at = λ w. ([], sym (append-nil w.calls), refl, λ p. k w.outside p) }

  pub IsQuiet-call :
      {A : Type 0} (c : Call F) (f : X → Result A × X)
      → is_place c ≡ false
      → ((x : X) → P x → P (f x).1)
      → IsQuiet P (call c f)
  unfolding call
  IsQuiet-call c f n k = record {
    at = λ w. ((c, is_ok (f w.outside).0) ∷ [], refl, rw n refl, λ p. k w.outside p);
  }

module _ {F X : Type 0} {P : X → Type 0} {A B : Type 0} where
  IsQuiet-continue :
      (r : Result A) (f : A → Exec F X B) → ((a : A) → IsQuiet P (f a)) → IsQuiet P (continue r f)
  IsQuiet-continue (ok a) f qf = qf a
  IsQuiet-continue (err e) f qf = record { at = λ w. ([], sym (append-nil w.calls), refl, λ p. p) }

  pub IsQuiet-bind :
      (m : Exec F X A) (f : A → Exec F X B)
      → IsQuiet P m
      → ((a : A) → IsQuiet P (f a))
      → IsQuiet P (m >>= f)
  unfolding ◌>>=◌
  IsQuiet-bind m f qm qf = record {
    at = λ w.
        let (new1, e1, n1, k1) = qm.at w in
        let (new2, e2, n2, k2) = (IsQuiet-continue (m w).0 f qf).at (m w).1 in
        (
          new1 ++ new2,
          e2 ∙ ap (λ l. l ++ new2) e1 ∙ append_assoc w.calls new1 new2,
          places-append new1 new2 ∙ omega arith,
          λ p. k2 (k1 p),
        );
  }

module _ {F X : Type 0} {P : X → Type 0} {A : Type 0} where
  pub IsQuiet-if :
      (b : Bool) (m n : Exec F X A) → IsQuiet P m → IsQuiet P n → IsQuiet P (if b then m else n)
  IsQuiet-if true m n qm qn = qm
  IsQuiet-if false m n qm qn = qn

module _ {F X : Type 0} (env : Env F X) {P : X → Type 0} (kept : IsKept env P) where
  pub IsQuiet-save : (r : OrderRecord F) → IsQuiet P (save_record env r)
  unfolding save_record
  IsQuiet-save r = IsQuiet-call (save_call r) (env.save r) refl (kept.by_save r)

  pub IsQuiet-reserve : (r : OrderRecord F) → IsQuiet P (reserve_record env r)
  unfolding reserve_record
  IsQuiet-reserve r = IsQuiet-call (reserve_call r) (env.reserve r) refl (kept.by_reserve r)

  pub IsQuiet-trade : (cid : String) (f : FillData F) → IsQuiet P (record_trade env cid f)
  unfolding record_trade
  IsQuiet-trade cid f =
      IsQuiet-call (trade_call cid f) (env.record_trade cid f) refl (kept.by_trade cid f)

  pub IsQuiet-position :
      (symbol exchange product : String) (change : ℤ) (price : F)
      → IsQuiet P (apply_position_delta env symbol exchange product change price)
  unfolding apply_position_delta
  IsQuiet-position symbol exchange product change price =
      IsQuiet-call (position_call symbol exchange product change price)
        (env.apply_position_delta symbol exchange product change price) refl
        (kept.by_position symbol exchange product change price)

  pub IsQuiet-cancel : (id : String) → IsQuiet P (cancel_at_broker env id)
  unfolding cancel_at_broker
  IsQuiet-cancel id = IsQuiet-call (cancel_call id) (env.cancel_order id) refl (kept.by_cancel id)

  pub IsQuiet-orders : IsQuiet {F = F} P (query env.get_orders)
  IsQuiet-orders = IsQuiet-query env.get_orders kept.by_orders

  pub IsQuiet-positions : IsQuiet {F = F} P (query env.get_positions)
  IsQuiet-positions = IsQuiet-query env.get_positions kept.by_positions

  pub IsQuiet-engage : IsQuiet P (engage_switch env)
  unfolding engage_switch
  IsQuiet-engage = IsQuiet-call engage_call (engage_kill_switch env.switch) refl kept.by_engage

  pub IsQuiet-quote : (key : String) → IsQuiet {F = F} P (query (env.get_quote key))
  IsQuiet-quote key = IsQuiet-query (env.get_quote key) (kept.by_quote key)

  pub IsQuiet-status : (id : String) → IsQuiet {F = F} P (query (env.get_order_status id))
  IsQuiet-status id = IsQuiet-query (env.get_order_status id) (kept.by_status id)

pub ruleset quiet_rules = (
  IsQuiet-pure, IsQuiet-raise, IsQuiet-lift, IsQuiet-ask, IsQuiet-attempt, IsQuiet-bind, IsQuiet-if,
)
