-- ===== src/Lifecycle/Transitions.antt =====
-- `LEGAL_TRANSITIONS` and `assert_transition` of lifecycle.py.
pub mod Paths
use algo_dollar.Base.{
  String, ◌<>◌, ◌≡◌, refl, Bool, true, false, not, ◌&&◌, Option, List, [], ◌∷◌, if◌then◌else◌,
  arith,
}
use algo_dollar.Errors.{Result, ok, err, illegal_transition}
use algo_dollar.Lifecycle.States.{
  OrderState, intent_created, risk_check_pending, risk_approved, risk_rejected, submitted,
  acknowledged, partially_filled, filled, cancel_pending, cancelled, rejected, expired, unknown,
  state_eq, state_in, value, is_terminal,
}

-- `LEGAL_TRANSITIONS[current]`
abbrev pub legal_transitions : OrderState → List OrderState
legal_transitions intent_created = risk_check_pending ∷ risk_rejected ∷ []
legal_transitions risk_check_pending = risk_approved ∷ risk_rejected ∷ []
legal_transitions risk_approved = submitted ∷ risk_rejected ∷ cancelled ∷ []
legal_transitions submitted =
    acknowledged ∷ partially_filled ∷ filled ∷ rejected ∷ cancelled ∷ expired ∷ unknown ∷ []
legal_transitions acknowledged =
    partially_filled ∷ filled ∷ cancel_pending ∷ cancelled ∷ rejected ∷ expired ∷ unknown ∷ []
legal_transitions partially_filled =
    partially_filled ∷ filled ∷ cancel_pending ∷ cancelled ∷ expired ∷ unknown ∷ []
legal_transitions cancel_pending = cancelled ∷ filled ∷ partially_filled ∷ rejected ∷ unknown ∷ []
legal_transitions unknown =
    acknowledged ∷ partially_filled ∷ filled ∷ cancelled ∷ rejected ∷ expired ∷ []
legal_transitions risk_rejected = []
legal_transitions filled = []
legal_transitions cancelled = []
legal_transitions rejected = []
legal_transitions expired = []

-- Raises unless `current -> new` is legal; the messages leave out the list of legal targets.
unfoldable pub assert_transition : OrderState → OrderState → Bool → Result (Unit {0})
assert_transition current new reconciled =
    if is_terminal current
    then err (
        illegal_transition
          (value current <> (" is terminal; cannot transition to " <> (value new <> "."))))
    else if not (state_in new (legal_transitions current))
    then err (
        illegal_transition
          ("Illegal transition " <> (value current <> (" -> " <> (value new <> ".")))))
    else if state_eq current unknown && not reconciled
    then err
        (illegal_transition "An order in UNKNOWN may only be resolved by broker reconciliation.")
    else ok tt

-- `assert_transition` as a test.
abbrev pub may_move : OrderState → OrderState → Bool → Bool
may_move current new reconciled =
    not (is_terminal current)
    && (state_in new (legal_transitions current)
        && not (state_eq current unknown && not reconciled))

pub assert_transition-may_move :
    (current new : OrderState) (reconciled : Bool)
    → assert_transition current new reconciled ≡ ok tt
    → may_move current new reconciled ≡ true
unfolding assert_transition
assert_transition-may_move current new reconciled h = ground arith

pub may_move-assert_transition :
    (current new : OrderState) (reconciled : Bool)
    → may_move current new reconciled ≡ true
    → assert_transition current new reconciled ≡ ok tt
unfolding assert_transition
may_move-assert_transition current new reconciled h = ground arith
