-- ===== src/Tests/Recovery.antt =====
-- Runs of the startup recovery, and its general statements at one of them.
use algo_dollar.Base.{
  ◌≡◌, refl, true, false, Option, none, some, List, [], ◌∷◌, codes_eq, upper, strip,
}
use algo_dollar.Base.Dict.{lookup}
use algo_dollar.Base.Member.{contains}
use algo_dollar.Double.{Units, units_double}
use algo_dollar.Errors.{ok}
use algo_dollar.Safety.KillSwitch.{StoreValue}
use algo_dollar.Reconcile.Status.{permits_trading}
use algo_dollar.Reconcile.Snapshot.{qty_differs, price_differs}
use algo_dollar.Reconcile.Fills.{reconcile_fills, group_fills, fill_qty}
use algo_dollar.Reconcile.Orders.{reconcile_orders, identify_unknown_orders}
use algo_dollar.Reconcile.Positions.{reconcile_positions, reconcile_cash}
use algo_dollar.Reconcile.Engine.{safe_fetch, fetch_local, fetch_broker, classify}
use algo_dollar.Recovery.{
  RecoveryReport, blocked, new_manager, require_ready, block, enter_ready, Surroundings,
}
use algo_dollar.Recovery.Steps.{run_comparisons, classified, run_sequence}
use algo_dollar.Recovery.Resolve.{resolve_safely, disambiguated}
use algo_dollar.Recovery.Startup.{finish_recovery, recover_startup}
use algo_dollar.Recovery.Ready.{
  Operation, recovery, blocking, run_manager, LastVouched, require_ready-LastVouched,
}
use algo_dollar.Recovery.Halt.{HaltTold, recover_startup-HaltTold}
use algo_dollar.Tests.Reconcile.{
  toy_py, toy_tolerances, at_broker, stored, source_of, plain_store, all_statuses,
}

-- Both sides can be read, and agree.
abbrev calm : Surroundings Units (Option StoreValue)
calm = record {
  broker = λ _. source_of at_broker;
  local_state = λ _. some (source_of stored);
  get_order_status = λ _ _. ok none;
  resolver = none;
  disambiguate = true;
  halt_store = some plain_store;
  kill_on = all_statuses;
}

-- There is no local store.
abbrev lost : Surroundings Units (Option StoreValue)
lost = record calm { local_state = λ _. none }

abbrev calls : List (Operation × Option StoreValue)
calls = (recovery true, none) ∷ (blocking, none) ∷ (recovery true, none) ∷ []

calls-ready : require_ready (run_manager toy_py toy_tolerances calm calls new_manager) ≡ ok tt
unfolding require_ready run_manager block recover_startup run_sequence finish_recovery enter_ready
    run_comparisons classified classify fetch_local fetch_broker safe_fetch reconcile_orders
    reconcile_fills reconcile_positions reconcile_cash identify_unknown_orders units_double lookup
    codes_eq upper strip group_fills fill_qty qty_differs price_differs
calls-ready = refl

require_ready-LastVouched_example : LastVouched toy_py toy_tolerances calm calls
require_ready-LastVouched_example =
    require_ready-LastVouched toy_py toy_tolerances calm calls calls-ready

lost-closed : permits_trading (run_sequence toy_py toy_tolerances lost none).result.status ≡ false
unfolding run_sequence run_comparisons classified classify fetch_local fetch_broker safe_fetch
    reconcile_orders reconcile_fills reconcile_positions reconcile_cash identify_unknown_orders
    units_double lookup codes_eq upper strip group_fills fill_qty qty_differs price_differs
    resolve_safely disambiguated contains
lost-closed = refl

recover_startup-HaltTold_example :
    (let (out, m, after) = recover_startup toy_py toy_tolerances lost true new_manager none in
      (told : RecoveryReport Units) × (m ≡ record { state = blocked; last_report = some told })
      × (told.state ≡ blocked)
      × HaltTold true
          (some plain_store)
          (run_sequence toy_py toy_tolerances lost none).world
          told
          out
          after)
recover_startup-HaltTold_example =
    recover_startup-HaltTold toy_py toy_tolerances lost true new_manager none lost-closed refl
