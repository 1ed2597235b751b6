-- ===== src/Tests/Audit.antt =====
-- Runs of the audit journal.
use algo_dollar.Base.{ℕ, ◌≡◌, refl, none, some, String, List, [], ◌∷◌, pos}
use algo_dollar.Double.{Units}
use algo_dollar.Errors.{err, other}
use algo_dollar.Audit.{ExecutionAuditRecord, blocked, value_reached}
use algo_dollar.Audit.Journal.{
  AuditSink, Written, IsRecorded, memory_sink, records_of, record_attempt,
  record_attempt-IsRecorded,
}

abbrev vetoed : ExecutionAuditRecord Units (List String)
vetoed = record {
  audit_id = "a1";
  idempotency_key = none;
  timestamp = "2026-01-05T09:15:00.000+00:00";
  trading_mode = "paper";
  symbol = some "TCS";
  exchange = none;
  side = some "BUY";
  quantity = some (pos 10);
  order_type = none;
  product = none;
  strategy = none;
  model_name = none;
  model_version = none;
  signal_edge_score = none;
  expected_return = none;
  expected_return_std = none;
  stop_loss_pct = none;
  target_pct = none;
  signal_timestamp = none;
  intended_notional = none;
  trade_risk = none;
  portfolio_allocation = none;
  eligibility_state = none;
  eligibility_permits_live = none;
  failed_gates = none;
  risk_checks_passed = none;
  failed_risk_checks = none;
  kill_switch_active = none;
  reconciliation_state = none;
  broker_order_id = none;
  broker_response = none;
  fill_quantity = none;
  average_fill_price = none;
  costs = none;
  slippage = none;
  outcome = "BLOCKED_RISK";
  rejection_reason = none;
  final_state = none;
  error = none;
  sink_error = none;
}

-- A sink whose disk is full.
abbrev full_sink : AuditSink Units (List String) (List ℕ)
full_sink = record {
  class_name = "JsonlAuditSink";
  write = λ address rec addresses. (err (other "disk full"), addresses);
}

abbrev before_any : Written Units (List String) (List ℕ)
before_any = record { objects = λ _. vetoed; outside = []; log = [] }

abbrev both_sinks : List (AuditSink Units (List String) (List ℕ))
both_sinks = full_sink ∷ memory_sink ∷ []

record_attempt-IsRecorded_example :
    IsRecorded both_sinks 7 before_any (record_attempt both_sinks 7 before_any).1
record_attempt-IsRecorded_example = record_attempt-IsRecorded both_sinks 7 before_any

-- The in-memory sink was written to after the failure, and shows the error that was set afterwards.
sink_failure_noted :
    let w = (record_attempt both_sinks 7 before_any).1 in
    let noted = record vetoed { sink_error = some "JsonlAuditSink: disk full" } in
    (records_of w.objects w.outside ≡ noted ∷ [])
    × (blocked (records_of w.objects w.outside) ≡ noted ∷ [])
unfolding record_attempt memory_sink blocked value_reached
sink_failure_noted = (refl, refl)
