-- ===== src/Recovery/Steps.antt =====
-- Steps 1 to 8 of `RecoveryManager.recover` (recovery.py).
use algo_dollar.Base.{
  String, Bool, false, not, ◌||◌, List, [], ◌∷◌, ◌++◌, keep_if, starts_with, if◌then◌else◌,
}
use algo_dollar.Errors.{Result, ok, err, ◌>>=◌}
use algo_dollar.Double.{Double}
use algo_dollar.Reconcile.Values.{Conversions}
use algo_dollar.Reconcile.Status.{permits_trading}
use algo_dollar.Reconcile.Found.{Discrepancy}
use algo_dollar.Reconcile.Snapshot.{Snapshot, Tolerances}
use algo_dollar.Reconcile.Orders.{reconcile_orders, identify_unknown_orders}
use algo_dollar.Reconcile.Positions.{reconcile_positions, reconcile_cash}
use algo_dollar.Reconcile.Engine.{
  ReconciliationResult, empty_snapshot, is_empty, fetch_local, fetch_broker, classify, verdict,
  evaluate,
}
use algo_dollar.Recovery.{
  load_local_state, query_broker, orders_phase, positions_phase, cash_phase, unknown_orders_phase,
  identify_mismatches, resolve_phase, verify_phase, PhaseOutcome, Comparison, Surroundings,
  Sequence, compared, simple,
}
use algo_dollar.Recovery.Resolve.{resolve_safely}

module _ {F : Type 0} where
  -- The loop over the comparisons: the outcomes until one raises, and what they found.
  unfoldable pub run_comparisons :
      List (Comparison F) → Snapshot F → List (PhaseOutcome F) × Result (List (Discrepancy F))
  run_comparisons [] snap = ([], ok [])
  run_comparisons ((phase, compare) ∷ rest) snap =
      let (later, more) = run_comparisons rest snap in
      elim (compare snap) [
        | err e ↦ ([], err e)
        | ok found ↦ (compared phase found ∷ later, more >>= λ others. ok (found ++ others))
      ]

abbrev pub none_named : String → List String → Bool
none_named prefix names = is_empty (keep_if (λ name. starts_with prefix name) names)

module _ {F : Type 0} where
  -- The first two phases, by what was unavailable after each.
  abbrev pub opening : List String → List String → List (PhaseOutcome F)
  opening local_missing missing =
      simple load_local_state (none_named "local_" local_missing)
      ∷ simple query_broker (none_named "broker_" missing)
      ∷ []

module _ {F : Type 0} ⦃d : Double F⦄ (py : Conversions F) (tol : Tolerances F) where
  abbrev pub comparisons : List (Comparison F)
  comparisons =
      (orders_phase, reconcile_orders py tol)
      ∷ (positions_phase, reconcile_positions py tol)
      ∷ (cash_phase, reconcile_cash py tol)
      ∷ (unknown_orders_phase, identify_unknown_orders py)
      ∷ []

module _ {F W : Type 0} ⦃d : Double F⦄ (py : Conversions F) (tol : Tolerances F)
    (env : Surroundings F W) where
  -- Step 8b: only what a further pass finds after a resolution counts.
  abbrev pub verified :
      List (PhaseOutcome F) → ReconciliationResult F → List String × W → Sequence F W
  verified phases result ([], w) = record {
    phases = phases;
    result = result;
    resolutions = [];
    world = w;
  }
  verified phases result (r ∷ rs, w) =
      let again = evaluate py tol (env.broker w) (env.local_state w) in
      record {
        phases =
            phases
            ++ record {
              phase = verify_phase;
              passed = permits_trading again.status;
              discrepancies = again.discrepancies;
            }
              ∷ [];
        result = again;
        resolutions = r ∷ rs;
        world = w;
      }

  -- Steps 7 and 8, or the end of a sequence that raised.
  unfoldable pub classified :
      List (PhaseOutcome F) → Snapshot F → Result (List (Discrepancy F)) → W → Sequence F W
  unfolding classify resolve_safely evaluate
  classified phases snap (err e) w = record {
    phases = phases ++ simple identify_mismatches false ∷ [];
    result = verdict snap (err e);
    resolutions = [];
    world = w;
  }
  classified phases snap (ok found) w =
      let result = classify snap found in
      let clean = permits_trading result.status in
      let resolution = if clean then ([], w) else resolve_safely env result w in
      let outcomes =
        record { phase = identify_mismatches; passed = clean; discrepancies = result.discrepancies }
        ∷ simple resolve_phase (clean || not (is_empty resolution.0))
        ∷ [] in
      verified (phases ++ outcomes) result resolution

  -- Steps 1 to 8 of `recover`.
  unfoldable pub run_sequence : W → Sequence F W
  unfolding fetch_local fetch_broker run_comparisons classified
  run_sequence w =
      let read_local = fetch_local (env.local_state w) empty_snapshot in
      let snap = fetch_broker (env.broker w) read_local in
      let (outcomes, found) = run_comparisons (comparisons py tol) snap in
      classified (opening read_local.unavailable snap.unavailable ++ outcomes) snap found w
