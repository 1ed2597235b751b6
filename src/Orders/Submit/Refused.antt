-- ===== src/Orders/Submit/Refused.antt =====
-- When `submit_order` of order_manager.py sends nothing.
use algo_dollar.Base.{◌≡◌, true, false, ◌++◌, ℤ, arith}
use algo_dollar.Errors.{Exn, Result, ok, err}
use algo_dollar.Double.{Double}
use algo_dollar.Orders.Env.{Env, Settings}
use algo_dollar.Orders.Exec.{World, Log, lift, ◌>>=◌}
use algo_dollar.Orders.Exec.Calls.{IsKept, places}
use algo_dollar.Orders.Pricing.{Signal}
use algo_dollar.Orders.Submit.{
  Account, require_eligible_for_live, is_paper_broker, submit_order, check_of, place_args,
}
use algo_dollar.Orders.Submit.Once.{IsCleared, submit_order_once}
use algo_dollar.Orders.Submit.Sends.{Sends, nothing, once}
use algo_dollar.Safety.KillSwitch.{
  KillStore, is_kill_switch_active, check_kill_switch, check_kill_switch_iff,
}
use algo_dollar.Safety.Permits.{validate_order_iff}

module _ {K : Type 0} (ks : KillStore K) where
  switch_off_inactive :
      (k : K) → check_kill_switch ks k ≡ ok tt → is_kill_switch_active ks k ≡ false
  unfolding is_kill_switch_active
  switch_off_inactive k h = ground arith

module _ {F X : Type 0} ⦃d : Double F⦄ (env : Env F X) (settings : Settings F) where
  cleared_switch_off :
      (sig : Signal F) (size : ℤ) (account : Account F) (x : X)
      → (c : IsCleared env settings
          (λ x. is_kill_switch_active env.switch x ≡ true)
          sig
          size
          account
          x)
      → is_kill_switch_active env.switch c.gated_at ≡ false
  cleared_switch_off sig size account x c = switch_off_inactive env.switch c.gated_at (
      (check_kill_switch_iff env.switch c.gated_at).1
        ((validate_order_iff env.switch settings.require_market_hours_support c.gated_at
            (env.view c.gated_at)
            (check_of env settings sig size account c.ref_price c.trade_risk)).0
          c.passed).switch_off)

  places_of_active :
      (sig : Signal F) (size : ℤ) (account : Account F) (x : X) (log : Log F)
      → Sends
          (place_args env settings sig size)
          (IsCleared env settings
            (λ x. is_kill_switch_active env.switch x ≡ true)
            sig
            size
            account
            x)
          log
      → places log ≡ 0
  places_of_active sig size account x log (nothing n) = n
  places_of_active sig size account x log (once before after r answered b a s c g e) =
      let on = g.held in let off = cleared_switch_off sig size account x g in ground arith

  -- While the kill switch is on, or its store cannot be read, and no call on the store or the
  -- broker turns it off, `submit_order` places no order, and the switch is still on at the end.
  pub submit_order_stopped :
      IsKept env (λ x. is_kill_switch_active env.switch x ≡ true)
      → (sig : Signal F) (size : ℤ) (account : Account F) (w : World F X)
      → is_kill_switch_active env.switch w.outside ≡ true
      → let v = (submit_order env settings sig size account w).1 in
        ((log : Log F) × (v.calls ≡ w.calls ++ log) × (places log ≡ 0))
        × (is_kill_switch_active env.switch v.outside ≡ true)
  submit_order_stopped kept sig size account w on =
      let ms = submit_order_once env settings kept sig size account w on in
      ((ms.log, ms.extends, places_of_active sig size account w.outside ms.log ms.sends), ms.keeps)

  lift_err :
      {A B C : Type 0} (m : Result A) (e : Exn) (f : A → World F X → Result B × World F X)
      (g : B → World F X → Result C × World F X) (w : World F X)
      → m ≡ err e
      → ((lift m >>= f) >>= g) w ≡ (err e, w)
  unfolding lift ◌>>=◌
  lift_err (ok a) e f g w h = ground arith
  lift_err (err x) e f g w h = ground arith

  -- With a broker that is not a paper broker, and a process that the eligibility gate refuses,
  -- `submit_order` raises what the gate raises, before anything is reserved, written or sent.
  pub submit_order_ineligible :
      (sig : Signal F) (size : ℤ) (account : Account F) (w : World F X) (e : Exn)
      → is_paper_broker env ≡ false
      → env.require_live_eligible ≡ err e
      → submit_order env settings sig size account w ≡ (err e, w)
  unfolding submit_order require_eligible_for_live
  submit_order_ineligible sig size account w e live refused =
      lift_err (require_eligible_for_live env) e _ _ w (rw live refused)
