-- ===== src/Audit.antt =====
-- The records of audit.py (backend/app/execution): the outcomes of an execution attempt, the record
-- of one, and the queries of the in-memory sink.
pub mod Journal
use algo_dollar.Base.{
  String, ◌==◌, eq_iff, ◌≡◌, refl, ◌∙◌, ap, Bool, true, false, not, Option, none, some, List, [],
  ◌∷◌, ℤ, ◌++◌, keep_if, if◌then◌else◌, arith,
}

pub data ExecutionOutcome : Type 0 where
  submitted filled partially_filled rejected_by_broker : ExecutionOutcome
  blocked_kill_switch blocked_eligibility blocked_risk blocked_not_reconciled : ExecutionOutcome
  blocked_mode blocked_duplicate cancelled ambiguous error : ExecutionOutcome

-- `ExecutionOutcome.value`
abbrev pub outcome_value : ExecutionOutcome → String
outcome_value submitted = "SUBMITTED"
outcome_value filled = "FILLED"
outcome_value partially_filled = "PARTIALLY_FILLED"
outcome_value rejected_by_broker = "REJECTED_BY_BROKER"
outcome_value blocked_kill_switch = "BLOCKED_KILL_SWITCH"
outcome_value blocked_eligibility = "BLOCKED_ELIGIBILITY"
outcome_value blocked_risk = "BLOCKED_RISK"
outcome_value blocked_not_reconciled = "BLOCKED_NOT_RECONCILED"
outcome_value blocked_mode = "BLOCKED_MODE"
outcome_value blocked_duplicate = "BLOCKED_DUPLICATE"
outcome_value cancelled = "CANCELLED"
outcome_value ambiguous = "AMBIGUOUS"
outcome_value error = "ERROR"

abbrev pub outcomes : List ExecutionOutcome
outcomes =
    submitted ∷ filled ∷ partially_filled ∷ rejected_by_broker ∷ blocked_kill_switch
    ∷ blocked_eligibility ∷ blocked_risk ∷ blocked_not_reconciled ∷ blocked_mode ∷ blocked_duplicate
    ∷ cancelled ∷ ambiguous ∷ error ∷ []

-- `ExecutionOutcome.reached_broker`
abbrev pub outcome_reached : ExecutionOutcome → Bool
outcome_reached submitted = true
outcome_reached filled = true
outcome_reached partially_filled = true
outcome_reached rejected_by_broker = true
outcome_reached ambiguous = true
outcome_reached cancelled = true
outcome_reached _ = false

find_outcome : String → List ExecutionOutcome → Option ExecutionOutcome
find_outcome v [] = none
find_outcome v (o ∷ os) = if outcome_value o == v then some o else find_outcome v os

-- `ExecutionOutcome(value)`; `none` is the `ValueError`.
unfoldable pub outcome_of_value : String → Option ExecutionOutcome
unfolding find_outcome
outcome_of_value v = find_outcome v outcomes

-- `ExecutionOutcome(value).reached_broker`, and false on the `ValueError`.
unfoldable pub value_reached : String → Bool
unfolding outcome_of_value
value_reached v = elim (outcome_of_value v) [ none ↦ false | some o ↦ outcome_reached o ]

-- `F` is a float and `D` a dict of plain values.
pub record ExecutionAuditRecord (F D : Type 0) : Type 0 where
  pub audit_id : String
  pub idempotency_key : Option String
  pub timestamp : String
  pub trading_mode : String
  pub symbol : Option String
  pub exchange : Option String
  pub side : Option String
  pub quantity : Option ℤ
  pub order_type : Option String
  pub product : Option String
  pub strategy : Option String
  pub model_name : Option String
  pub model_version : Option String
  pub signal_edge_score : Option F
  pub expected_return : Option F
  pub expected_return_std : Option F
  pub stop_loss_pct : Option F
  pub target_pct : Option F
  pub signal_timestamp : Option String
  pub intended_notional : Option F
  pub trade_risk : Option F
  pub portfolio_allocation : Option D
  pub eligibility_state : Option String
  pub eligibility_permits_live : Option Bool
  pub failed_gates : Option (List String)
  pub risk_checks_passed : Option Bool
  pub failed_risk_checks : Option (List String)
  pub kill_switch_active : Option Bool
  pub reconciliation_state : Option String
  pub broker_order_id : Option String
  pub broker_response : Option D
  pub fill_quantity : Option ℤ
  pub average_fill_price : Option F
  pub costs : Option F
  pub slippage : Option F
  pub outcome : String
  pub rejection_reason : Option String
  pub final_state : Option String
  pub error : Option String
  pub sink_error : Option String

module _ {F D : Type 0} where
  -- `ExecutionAuditRecord.reached_broker`
  abbrev pub record_reached : ExecutionAuditRecord F D → Bool
  record_reached r = value_reached r.outcome

  -- The queries of `InMemoryAuditSink`, on its list of records.
  unfoldable pub by_outcome :
      ExecutionOutcome → List (ExecutionAuditRecord F D) → List (ExecutionAuditRecord F D)
  by_outcome o rs = keep_if (λ r. r.outcome == outcome_value o) rs

  unfoldable pub reached_broker : List (ExecutionAuditRecord F D) → List (ExecutionAuditRecord F D)
  reached_broker rs = keep_if record_reached rs

  unfoldable pub blocked : List (ExecutionAuditRecord F D) → List (ExecutionAuditRecord F D)
  blocked rs = keep_if (λ r. not (record_reached r)) rs
