-- ===== src/Recovery.antt =====
-- `RecoveryManager` of recovery.py: the startup sequence and the permission to trade. What it calls is
-- a parameter; the reconciliation engine is the one of Reconcile. The texts of reasons and details are
-- left out. The branch for an error of the kill switch inside the sequence is, too: nothing that the
-- sequence calls raises it.
pub mod Resolve
pub mod Steps
pub mod Startup
pub mod Decision
pub mod Ready
pub mod Halt
use algo_dollar.Base.{
  String, ◌<>◌, Bool, true, false, not, ◌||◌, Option, none, some, List, [], ◌∷◌, ◌++◌, keep_if,
  codes, is_nonempty, starts_with, if◌then◌else◌,
}
use algo_dollar.Errors.{Exn, Result, ok, err, ◌>>=◌, message, other, trading_blocked}
use algo_dollar.Double.{Double}
use algo_dollar.Lifecycle.Store.{text_or}
use algo_dollar.Reconcile.Values.{Conversions}
use algo_dollar.Reconcile.Status.{
  ReconciliationStatus, permits_trading, DiscrepancyKind, unknown_order_state,
  classify_order_status, is_unknown_class,
}
use algo_dollar.Reconcile.Found.{Discrepancy}
use algo_dollar.Reconcile.Snapshot.{Snapshot, Tolerances}
use algo_dollar.Reconcile.Orders.{reconcile_orders, identify_unknown_orders}
use algo_dollar.Reconcile.Positions.{reconcile_positions, reconcile_cash}
use algo_dollar.Reconcile.Engine.{
  Source, ReconciliationResult, HaltStore, empty_snapshot, is_empty, fetch_local, fetch_broker,
  classify, verdict, evaluate, enforce,
}

pub data StartupState : Type 0 where
  recovering ready blocked : StartupState

-- `permits_trading`, and `__bool__`
abbrev pub permits : StartupState → Bool
permits ready = true
permits _ = false

pub data RecoveryPhase : Type 0 where
  load_local_state query_broker : RecoveryPhase
  orders_phase positions_phase cash_phase unknown_orders_phase : RecoveryPhase
  identify_mismatches resolve_phase verify_phase permit_trading : RecoveryPhase

pub record PhaseOutcome (F : Type 0) : Type 0 where
  pub phase : RecoveryPhase
  pub passed : Bool
  pub discrepancies : List (Discrepancy F)

pub record RecoveryReport (F : Type 0) : Type 0 where
  pub state : StartupState
  pub status : ReconciliationStatus
  pub phases : List (PhaseOutcome F)
  pub result : ReconciliationResult F
  pub unresolved : List (Discrepancy F)
  pub resolutions : List String
  pub kill_switch_activated : Bool
  pub kill_switch_error : Option String

pub record RecoveryManager (F : Type 0) : Type 0 where
  pub state : StartupState
  pub last_report : Option (RecoveryReport F)

-- A phase and what it compares.
abbrev pub Comparison : Type 0 → Type 0
Comparison F = RecoveryPhase × (Snapshot F → Result (List (Discrepancy F)))

-- What recovery calls, in the state of the world: the reads of both sides (`local_state` is what
-- `resolve_local_state` finds), one order's status at the broker, the resolver, and the kill switch
-- with `activate_kill_switch_on`.
pub record Surroundings (F W : Type 0) : Type 0 where
  pub broker : W → Source F
  pub local_state : W → Option (Source F)
  pub get_order_status : String → W → Result (Option (Option String))
  pub resolver : Option (ReconciliationResult F → W → Result (List String) × W)
  pub disambiguate : Bool
  pub halt_store : Option (HaltStore W)
  pub kill_on : ReconciliationStatus → Bool

-- What the sequence comes to: its phases, the deciding result, what was resolved, and the world.
pub record Sequence (F W : Type 0) : Type 0 where
  pub phases : List (PhaseOutcome F)
  pub result : ReconciliationResult F
  pub resolutions : List String
  pub world : W

module _ {F : Type 0} where
  -- `RecoveryManager.__init__`
  abbrev pub new_manager : RecoveryManager F
  new_manager = record { state = blocked; last_report = none }

  -- `require_ready`
  unfoldable pub require_ready : RecoveryManager F → Result (Unit {0})
  require_ready m = if permits m.state then ok tt else err (trading_blocked "Trading is blocked")

  -- `block`
  unfoldable pub block : RecoveryManager F → RecoveryManager F
  block m = record m { state = blocked }

  -- `_enter_ready`
  unfoldable pub enter_ready :
      ReconciliationResult F → RecoveryManager F → Result (RecoveryManager F)
  enter_ready result m =
      if permits_trading result.status
      then ok (record m { state = ready })
      else err (other "READY is reachable only via RECONCILIATION_OK")

module _ {F : Type 0} where
  -- The outcome of a phase that is passed if it found nothing.
  abbrev pub compared : RecoveryPhase → List (Discrepancy F) → PhaseOutcome F
  compared phase found = record { phase = phase; passed = is_empty found; discrepancies = found }

  abbrev pub simple : RecoveryPhase → Bool → PhaseOutcome F
  simple phase passed = record { phase = phase; passed = passed; discrepancies = [] }
