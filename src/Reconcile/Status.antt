-- ===== src/Reconcile/Status.antt =====
-- The enumerations and the order-status vocabulary of reconciliation.py.
use algo_dollar.Base.{
  ℕ, String, Bool, true, false, List, [], ◌∷◌, ◌||◌, codes, codes_eq, strip, upper, if◌then◌else◌,
}

pub data ReconciliationStatus : Type 0 where
  reconciliation_ok reconciliation_mismatch : ReconciliationStatus
  reconciliation_unavailable reconciliation_error : ReconciliationStatus

-- `ReconciliationStatus.permits_trading`
abbrev pub permits_trading : ReconciliationStatus → Bool
permits_trading reconciliation_ok = true
permits_trading _ = false

pub data DiscrepancyKind : Type 0 where
  missing_local missing_broker mismatched_qty mismatched_price mismatched_cash : DiscrepancyKind
  unknown_order_state partial_fill_mismatch data_unavailable : DiscrepancyKind

pub data Severity : Type 0 where
  critical warning : Severity

abbrev pub open_statuses : List String
open_statuses =
    "OPEN" ∷ "TRIGGER PENDING" ∷ "AMO REQ RECEIVED" ∷ "OPEN PENDING" ∷ "MODIFY PENDING"
    ∷ "MODIFY VALIDATION PENDING" ∷ "CANCEL PENDING" ∷ "VALIDATION PENDING"
    ∷ "PUT ORDER REQ RECEIVED" ∷ "PARTIAL" ∷ "PARTIALLY FILLED" ∷ "PARTIALLY_FILLED" ∷ []

abbrev pub terminal_statuses : List String
terminal_statuses = "COMPLETE" ∷ "CANCELLED" ∷ "REJECTED" ∷ []

-- A text of the list is spelled by these code points.
unfoldable pub is_spelled : List ℕ → List String → Bool
is_spelled cs [] = false
is_spelled cs (s ∷ ss) = codes_eq (codes s) cs || is_spelled cs ss

-- 'open', 'terminal' or 'unknown'
pub data OrderClass : Type 0 where
  open_order terminal_order unknown_order : OrderClass

abbrev pub is_open_class : OrderClass → Bool
is_open_class open_order = true
is_open_class _ = false

abbrev pub is_unknown_class : OrderClass → Bool
is_unknown_class unknown_order = true
is_unknown_class _ = false

-- `classify_order_status`, on a text that is already stripped and in upper case
abbrev pub class_of : List ℕ → OrderClass
class_of cs =
    if is_spelled cs open_statuses
    then open_order
    else if is_spelled cs terminal_statuses
    then terminal_order
    else unknown_order

-- `classify_order_status`, which strips and raises the case itself
unfoldable pub classify_order_status : List ℕ → OrderClass
unfolding is_spelled
classify_order_status cs = class_of (upper (strip cs))
