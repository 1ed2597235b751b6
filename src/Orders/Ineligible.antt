-- ===== src/Orders/Ineligible.antt =====
-- A process that may not trade live (order_manager.py).
use mathlib.Core.List.{append-nil, append_assoc}
use algo_dollar.Base.{◌≡◌, refl, sym, ◌∙◌, ap, Bool, true, false, List, [], ◌∷◌, ◌++◌, All, arith}
use algo_dollar.Errors.{Exn, err}
use algo_dollar.Double.{Double}
use algo_dollar.Orders.Env.{Env, Settings}
use algo_dollar.Orders.Exec.{Log, World, Exec}
use algo_dollar.Orders.Exec.Calls.{places, places-append, kept_nothing, IsQuiet}
use algo_dollar.Orders.History.{
  Operation, submitting, filling, cancelling, recovering, monitoring, flattening, run_operation,
  run_operations,
}
use algo_dollar.Orders.Quiet.{handle_fill-IsQuiet}
use algo_dollar.Orders.Quiet.Handlers.{cancel_order-IsQuiet, recover-IsQuiet, monitor_order-IsQuiet}
use algo_dollar.Orders.Submit.{is_paper_broker}
use algo_dollar.Orders.Submit.Refused.{submit_order_ineligible}

-- Any call but an emergency flatten.
abbrev pub is_regular : {F : Type 0} → Operation F → Bool
is_regular (flattening _ _) = false
is_regular _ = true

-- The run from one state to another has placed nothing.
abbrev pub PlacedNone : {F X : Type 0} → World F X → World F X → Type 0
PlacedNone {F} w v = (log : Log F) × (v.calls ≡ w.calls ++ log) × (places log ≡ 0)

module _ {F X : Type 0} where
  PlacedNone-then : (w v u : World F X) → PlacedNone w v → PlacedNone v u → PlacedNone w u
  PlacedNone-then w v u (l, e, n) (k, e', n') = (
    l ++ k,
    e' ∙ ap (λ calls. calls ++ k) e ∙ append_assoc w.calls l k,
    places-append l k ∙ omega arith,
  )

  PlacedNone-same : (w v : World F X) → v ≡ w → PlacedNone w v
  PlacedNone-same w v e = ([], ap (λ u. u.calls) e ∙ sym (append-nil w.calls), refl)

  PlacedNone-of_quiet :
      {A : Type 0} {P : X → Type 0} (m : Exec F X A) (w : World F X)
      → IsQuiet P m
      → PlacedNone w (m w).1
  PlacedNone-of_quiet m w quiet = let (log, e, n, _) = quiet.at w in (log, e, n)

module _ {F X : Type 0} ⦃d : Double F⦄ (env : Env F X) (settings : Settings F) (e : Exn)
    (live : is_paper_broker env ≡ false) (refused : env.require_live_eligible ≡ err e) where
  run_operation-PlacedNone :
      (o : Operation F) (w : World F X)
      → is_regular o ≡ true
      → PlacedNone w (run_operation env settings o w)
  unfolding run_operation
  run_operation-PlacedNone (submitting sig size account) w h =
      PlacedNone-same w _
        (ap (λ p. p.1) (submit_order_ineligible env settings sig size account w e live refused))
  run_operation-PlacedNone (filling order_ref fill) w h =
      PlacedNone-of_quiet _ w (handle_fill-IsQuiet env (kept_nothing env) order_ref fill)
  run_operation-PlacedNone (cancelling order_ref) w h =
      PlacedNone-of_quiet _ w (cancel_order-IsQuiet env (kept_nothing env) order_ref)
  run_operation-PlacedNone recovering w h =
      PlacedNone-of_quiet _ w (recover-IsQuiet env (kept_nothing env))
  run_operation-PlacedNone (monitoring rounds order_ref) w h =
      PlacedNone-of_quiet _ w (monitor_order-IsQuiet env (kept_nothing env) rounds order_ref)
  run_operation-PlacedNone (flattening override session) w h = cc h

  -- With a broker that is not a paper broker, in a process that the eligibility gate refuses, no
  -- sequence of submissions, fills, cancellations, recoveries and polls places an order, whatever the
  -- store, the broker and the signals are. An emergency flatten, which the gate does not ask, is no
  -- part of the sequence.
  pub run_operations-PlacedNone :
      (os : List (Operation F)) (w : World F X)
      → All (λ o. is_regular o ≡ true) os
      → PlacedNone w (run_operations env settings os w)
  unfolding run_operations
  run_operations-PlacedNone [] w h = PlacedNone-same w w refl
  run_operations-PlacedNone (o ∷ os) w (h, hs) =
      let v = run_operation env settings o w in
      PlacedNone-then w v (run_operations env settings os v) (run_operation-PlacedNone o w h)
        (run_operations-PlacedNone os v hs)
