-- ===== src/Lifecycle/States.antt =====
-- `OrderState` and the three frozen sets of lifecycle.py, and `OrderState(value)`.
use algo_dollar.Base.{
  ℕ, String, ◌==◌, ◌≡◌, refl, Bool, true, false, not, Option, none, some, List, [], ◌∷◌, ◌||◌,
  nat_eq, if◌then◌else◌, arith,
}

pub data OrderState : Type 0 where
  intent_created risk_check_pending risk_approved risk_rejected : OrderState
  submitted acknowledged partially_filled filled : OrderState
  cancel_pending cancelled rejected expired unknown : OrderState

-- The declaration order of the enumeration, by which members are compared.
abbrev pub rank : OrderState → ℕ
rank intent_created = 0
rank risk_check_pending = 1
rank risk_approved = 2
rank risk_rejected = 3
rank submitted = 4
rank acknowledged = 5
rank partially_filled = 6
rank filled = 7
rank cancel_pending = 8
rank cancelled = 9
rank rejected = 10
rank expired = 11
rank unknown = 12

-- `a is b`
abbrev pub state_eq : OrderState → OrderState → Bool
state_eq a b = nat_eq (rank a) (rank b)

abbrev pub state_in : OrderState → List OrderState → Bool
state_in s [] = false
state_in s (t ∷ ts) = state_eq s t || state_in s ts

-- `OrderState.value`
abbrev pub value : OrderState → String
value intent_created = "INTENT_CREATED"
value risk_check_pending = "RISK_CHECK_PENDING"
value risk_approved = "RISK_APPROVED"
value risk_rejected = "RISK_REJECTED"
value submitted = "SUBMITTED"
value acknowledged = "ACKNOWLEDGED"
value partially_filled = "PARTIALLY_FILLED"
value filled = "FILLED"
value cancel_pending = "CANCEL_PENDING"
value cancelled = "CANCELLED"
value rejected = "REJECTED"
value expired = "EXPIRED"
value unknown = "UNKNOWN"

abbrev pub members : List OrderState
members =
    intent_created ∷ risk_check_pending ∷ risk_approved ∷ risk_rejected ∷ submitted ∷ acknowledged
    ∷ partially_filled ∷ filled ∷ cancel_pending ∷ cancelled ∷ rejected ∷ expired ∷ unknown ∷ []

find_member : String → List OrderState → Option OrderState
find_member v [] = none
find_member v (s ∷ ss) = if value s == v then some s else find_member v ss

-- `OrderState(value)`; `none` is the `ValueError`.
unfoldable pub of_value : String → Option OrderState
unfolding find_member
of_value v = find_member v members

abbrev pub terminal_states : List OrderState
terminal_states = risk_rejected ∷ filled ∷ cancelled ∷ rejected ∷ expired ∷ []

abbrev pub open_states : List OrderState
open_states =
    intent_created ∷ risk_check_pending ∷ risk_approved ∷ submitted ∷ acknowledged
    ∷ partially_filled ∷ cancel_pending ∷ unknown ∷ []

abbrev pub blocked_states : List OrderState
blocked_states = unknown ∷ []

abbrev pub is_terminal : OrderState → Bool
is_terminal s = state_in s terminal_states

abbrev pub is_blocked : OrderState → Bool
is_blocked s = state_in s blocked_states

-- Every state can be read back from its stored value; no two share one.
pub of_value-value : (s : OrderState) → of_value (value s) ≡ some s
unfolding of_value
of_value-value intent_created = refl
of_value-value _ = refl

-- The open states are those that are not terminal, and a blocked state is open.
pub open_not_terminal :
    (s : OrderState)
    → (state_in s open_states ≡ not (is_terminal s))
      × (is_blocked s ≡ true → state_in s open_states ≡ true)
open_not_terminal intent_created = ground arith
open_not_terminal _ = ground arith

pub state_eq-eq : (a b : OrderState) → state_eq a b ≡ true → a ≡ b
state_eq-eq a b h = ground arith

pub state_eq_refl : (a : OrderState) → state_eq a a ≡ true
state_eq_refl a = ground arith
