-- ===== src/Recovery/Startup.antt =====
-- `RecoveryManager.recover` and its end, `_finish` (recovery.py).
use algo_dollar.Base.{Bool, true, false, none, some, [], ◌∷◌, ◌++◌, if◌then◌else◌}
use algo_dollar.Errors.{Result, ok, err, message}
use algo_dollar.Double.{Double}
use algo_dollar.Reconcile.Values.{Conversions}
use algo_dollar.Reconcile.Status.{permits_trading}
use algo_dollar.Reconcile.Snapshot.{Tolerances}
use algo_dollar.Reconcile.Engine.{ReconciliationResult, enforce}
use algo_dollar.Recovery.{
  StartupState, recovering, ready, blocked, permit_trading, RecoveryReport, RecoveryManager,
  Surroundings, Sequence, enter_ready, simple,
}
use algo_dollar.Recovery.Steps.{run_sequence}

module _ {F W : Type 0} where
  abbrev pub report_of : Sequence F W → StartupState → Bool → RecoveryReport F
  report_of seq state permitted = record {
    state = state;
    status = seq.result.status;
    phases = seq.phases ++ simple permit_trading permitted ∷ [];
    result = seq.result;
    unresolved = if permitted then [] else seq.result.discrepancies;
    resolutions = seq.resolutions;
    kill_switch_activated = false;
    kill_switch_error = none;
  }

  -- What follows the halt. The report is kept in the manager, as the halt left it.
  abbrev pub halted :
      (raise_on_kill_switch_failure : Bool)
      → RecoveryReport F
      → RecoveryManager F
      → Result (ReconciliationResult F) × W
      → Result (RecoveryReport F) × RecoveryManager F × W
  halted raising report m (ok result, w) =
      let told = record report {
        result = result;
        kill_switch_activated = result.kill_switch_activated;
      } in
      (ok told, record m { last_report = some told }, w)
  halted raising report m (err e, w) =
      let told = record report { kill_switch_error = some (message e) } in
      (if raising then err e else ok told, record m { last_report = some told }, w)

  abbrev pub entered :
      RecoveryReport F
      → RecoveryManager F
      → W
      → Result (RecoveryManager F)
      → Result (RecoveryReport F) × RecoveryManager F × W
  entered report m w (err e) = (err e, m, w)
  entered report m w (ok m') = (ok report, record m' { last_report = some report }, w)

module _ {F W : Type 0} (env : Surroundings F W) where
  -- `_finish`
  unfoldable pub finish_recovery :
      Bool → Sequence F W → RecoveryManager F → Result (RecoveryReport F) × RecoveryManager F × W
  unfolding enter_ready
  finish_recovery raising seq m =
      if permits_trading seq.result.status
      then entered (report_of seq ready true) m seq.world (enter_ready seq.result m)
      else halted raising (report_of seq blocked false) (record m { state = blocked })
          (enforce env.halt_store env.kill_on false seq.result seq.world)

module _ {F W : Type 0} ⦃d : Double F⦄ (py : Conversions F) (tol : Tolerances F)
    (env : Surroundings F W) where
  -- `recover`
  unfoldable pub recover_startup :
      Bool → RecoveryManager F → W → Result (RecoveryReport F) × RecoveryManager F × W
  unfolding run_sequence finish_recovery
  recover_startup raising m w =
      finish_recovery env raising (run_sequence py tol env w) (record m { state = recovering })
