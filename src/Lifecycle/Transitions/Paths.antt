-- ===== src/Lifecycle/Transitions/Paths.antt =====
-- What the declared transitions allow over a whole life of an order (lifecycle.py).
use algo_dollar.Base.{◌≡◌, refl, Bool, true, false, List, [], ◌∷◌, arith, ◌↔◌, if◌then◌else◌}
use algo_dollar.Lifecycle.States.{
  OrderState, intent_created, risk_check_pending, risk_approved, risk_rejected, submitted,
  acknowledged, partially_filled, cancel_pending, cancelled, rejected, unknown, is_terminal,
}
use algo_dollar.Lifecycle.Transitions.{may_move}
use algo_dollar.Errors.{Result, ok, ◌>>◌, is_ok}
use algo_dollar.Lifecycle.Transitions.{assert_transition, assert_transition-may_move}

-- Moves to a state, each made with or without a reconciliation.
abbrev pub Moves : Type 0
Moves = List (OrderState × Bool)

abbrev pub states : Moves → List OrderState
states [] = []
states ((t, _) ∷ ms) = t ∷ states ms

-- The moves one after the other, up to the first that raises.
unfoldable pub walk : OrderState → Moves → Result OrderState
walk s [] = ok s
walk s ((t, r) ∷ ms) = assert_transition s t r >> walk t ms

-- The states in which the broker may have been called for the order.
abbrev pub reached_broker : OrderState → Bool
reached_broker intent_created = false
reached_broker risk_check_pending = false
reached_broker risk_approved = false
reached_broker risk_rejected = false
reached_broker cancelled = false
reached_broker _ = true

-- The first move of an accepted walk is legal, and the rest is a walk from its target.
pub walk_first :
    (s t : OrderState) (r : Bool) (ms : Moves) (u : OrderState)
    → walk s ((t, r) ∷ ms) ≡ ok u
    → (may_move s t r ≡ true) × (walk t ms ≡ ok u)
unfolding walk
walk_first s t r ms u h = ground (arith, assert_transition-may_move s t r)

walk_terminal :
    (s : OrderState) (ms : Moves) (u : OrderState)
    → is_terminal s ≡ true
    → walk s ms ≡ ok u
    → (ms ≡ []) × (u ≡ s)
walk_terminal s [] u t h = (refl, unfold walk in ground arith)
walk_terminal s ((n, r) ∷ ms) u t h = ground (arith, walk_first s n r ms u)

from_approved :
    (ms : Moves) (u : OrderState)
    → walk risk_approved ms ≡ ok u
    → reached_broker u ≡ true
    → (rest : List OrderState) × (states ms ≡ submitted ∷ rest)
from_approved [] u h b = unfold walk in ground arith
from_approved ((submitted, r) ∷ ms) u h b = (states ms, refl)
from_approved ((t, r) ∷ ms) u h b =
    ground (arith, walk_first risk_approved t r ms u, walk_terminal t ms u)

from_pending :
    (ms : Moves) (u : OrderState)
    → walk risk_check_pending ms ≡ ok u
    → reached_broker u ≡ true
    → (rest : List OrderState) × (states ms ≡ risk_approved ∷ submitted ∷ rest)
from_pending [] u h b = unfold walk in ground arith
from_pending ((risk_approved, r) ∷ ms) u h b =
    let (rest, e) = from_approved ms u (walk_first risk_check_pending risk_approved r ms u h).1 b in
    (rest, rw e)
from_pending ((t, r) ∷ ms) u h b =
    ground (arith, walk_first risk_check_pending t r ms u, walk_terminal t ms u)

-- An order that has reached a state at the broker, FILLED among them, went from INTENT_CREATED
-- through RISK_CHECK_PENDING, RISK_APPROVED and SUBMITTED first, in this order.
pub walk_passes_risk :
    (ms : Moves) (u : OrderState)
    → walk intent_created ms ≡ ok u
    → reached_broker u ≡ true
    → (rest : List OrderState) × (states ms ≡ risk_check_pending ∷ risk_approved ∷ submitted ∷ rest)
walk_passes_risk [] u h b = unfold walk in ground arith
walk_passes_risk ((risk_check_pending, r) ∷ ms) u h b =
    let (rest, e) = from_pending ms u (walk_first intent_created risk_check_pending r ms u h).1 b in
    (rest, rw e)
walk_passes_risk ((t, r) ∷ ms) u h b =
    ground (arith, walk_first intent_created t r ms u, walk_terminal t ms u)

-- What each move of a walk leaves: no terminal state, and UNKNOWN only after a reconciliation.
abbrev pub LeavesSafely : OrderState → Moves → Type 0
LeavesSafely s [] = Unit
LeavesSafely s ((t, r) ∷ ms) =
    (is_terminal s ≡ false) × (s ≡ unknown → r ≡ true) × LeavesSafely t ms

-- In an accepted walk no move leaves a terminal state, and a move out of UNKNOWN is reconciled.
pub walk-LeavesSafely :
    (s : OrderState) (ms : Moves) (u : OrderState) → walk s ms ≡ ok u → LeavesSafely s ms
walk-LeavesSafely s [] u h = tt
walk-LeavesSafely s ((t, r) ∷ ms) u h =
    let (legal, rest) = walk_first s t r ms u h in
    (ground arith, ground arith, walk-LeavesSafely t ms u rest)

-- The moves that end an order from each state.
abbrev pub way_out : OrderState → Moves
way_out intent_created = (risk_rejected, false) ∷ []
way_out risk_check_pending = (risk_rejected, false) ∷ []
way_out risk_approved = (risk_rejected, false) ∷ []
way_out unknown = (rejected, true) ∷ []
way_out s = if is_terminal s then [] else (cancelled, false) ∷ []

-- From every state an accepted walk ends the order, and a state is terminal exactly when every move
-- out of it raises.
pub walk_ends :
    (s : OrderState)
    → ((u : OrderState) × (walk s (way_out s) ≡ ok u) × (is_terminal u ≡ true))
      × ((is_terminal s ≡ true)
          ↔ ((t : OrderState) (r : Bool) → is_ok (assert_transition s t r) ≡ false))
unfolding walk assert_transition
walk_ends s = (way_out-ends s, stuck s)
  where
    way_out-ends :
        (s : OrderState) → (u : OrderState) × (walk s (way_out s) ≡ ok u) × (is_terminal u ≡ true)
    way_out-ends intent_created = (risk_rejected, refl, refl)
    way_out-ends risk_check_pending = (risk_rejected, refl, refl)
    way_out-ends risk_approved = (risk_rejected, refl, refl)
    way_out-ends unknown = (rejected, refl, refl)
    way_out-ends submitted = (cancelled, refl, refl)
    way_out-ends acknowledged = (cancelled, refl, refl)
    way_out-ends partially_filled = (cancelled, refl, refl)
    way_out-ends cancel_pending = (cancelled, refl, refl)
    way_out-ends s = (s, refl, refl)

    stuck :
        (s : OrderState)
        → (is_terminal s ≡ true)
          ↔ ((t : OrderState) (r : Bool) → is_ok (assert_transition s t r) ≡ false)
    stuck intent_created = (λ e. ground arith, λ all. ground (arith, all risk_rejected false))
    stuck risk_check_pending = (λ e. ground arith, λ all. ground (arith, all risk_rejected false))
    stuck risk_approved = (λ e. ground arith, λ all. ground (arith, all risk_rejected false))
    stuck unknown = (λ e. ground arith, λ all. ground (arith, all rejected true))
    stuck submitted = (λ e. ground arith, λ all. ground (arith, all cancelled false))
    stuck acknowledged = (λ e. ground arith, λ all. ground (arith, all cancelled false))
    stuck partially_filled = (λ e. ground arith, λ all. ground (arith, all cancelled false))
    stuck cancel_pending = (λ e. ground arith, λ all. ground (arith, all cancelled false))
    stuck s = (λ e t r. refl, λ all. refl)
