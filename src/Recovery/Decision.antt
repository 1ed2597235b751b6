-- ===== src/Recovery/Decision.antt =====
-- What the startup sequence of `RecoveryManager.recover` decides by (recovery.py).
use mathlib.Core.List.{append-nil}
use algo_dollar.Base.{
  ◌≡◌, ◌≢◌, refl, sym, ◌∙◌, ap, String, true, false, inl, inr, List, [], ◌∷◌, ◌++◌, Bool-cases,
}
use algo_dollar.Errors.{Result, ok, err, ◌>>=◌, Result-cases}
use algo_dollar.Double.{Double}
use algo_dollar.Reconcile.Values.{Conversions}
use algo_dollar.Reconcile.Status.{permits_trading}
use algo_dollar.Reconcile.Found.{Discrepancy}
use algo_dollar.Reconcile.Snapshot.{Snapshot, Tolerances}
use algo_dollar.Reconcile.Orders.{reconcile_orders, identify_unknown_orders}
use algo_dollar.Reconcile.Positions.{reconcile_positions, reconcile_cash}
use algo_dollar.Reconcile.Engine.{
  ReconciliationResult, gather, fetch_local, empty_snapshot, verdict, compare_all, evaluate,
}
use algo_dollar.Recovery.{RecoveryPhase, Comparison, Surroundings, PhaseOutcome}
use algo_dollar.Recovery.Steps.{
  run_comparisons, comparisons, verified, classified, run_sequence, opening,
}
use algo_dollar.Recovery.Resolve.{resolve_safely}

module _ {F : Type 0} where
  -- What one comparison finds, and what the others found.
  abbrev and_others :
      Result (List (Discrepancy F)) → Result (List (Discrepancy F)) → Result (List (Discrepancy F))
  and_others m more = m >>= λ found. more >>= λ others. ok (found ++ others)

  run_comparisons-step :
      (phase : RecoveryPhase) (compare : Snapshot F → Result (List (Discrepancy F)))
      (rest : List (Comparison F)) (snap : Snapshot F)
      → (run_comparisons ((phase, compare) ∷ rest) snap).1
        ≡ and_others (compare snap) (run_comparisons rest snap).1
  unfolding run_comparisons
  run_comparisons-step phase compare rest snap = elim (Result-cases (compare snap)) [
    | inl (found, e) ↦ rw (e, run_comparisons) refl
    | inr (x, e) ↦ rw (e, run_comparisons) refl
  ]

  run_comparisons-nil : (snap : Snapshot F) → (run_comparisons [] snap).1 ≡ ok []
  unfolding run_comparisons
  run_comparisons-nil snap = refl

  -- Four comparisons, joined one by one or at once.
  join_four :
      (m n c u : Result (List (Discrepancy F)))
      → and_others m (and_others n (and_others c (and_others u (ok []))))
        ≡ (m >>= λ a. n >>= λ b. c >>= λ s. u >>= λ e. ok (a ++ (b ++ (s ++ e))))
  join_four (err x) n c u = refl
  join_four (ok a) (err x) c u = refl
  join_four (ok a) (ok b) (err x) u = refl
  join_four (ok a) (ok b) (ok s) (err x) = refl
  join_four (ok a) (ok b) (ok s) (ok e) = ap (λ x. ok (a ++ (b ++ (s ++ x)))) (append-nil e)

module _ {F : Type 0} ⦃d : Double F⦄ (py : Conversions F) (tol : Tolerances F) where
  comparisons-compare_all :
      (snap : Snapshot F) → (run_comparisons (comparisons py tol) snap).1 ≡ compare_all py tol snap
  unfolding compare_all
  comparisons-compare_all snap =
      let orders = reconcile_orders py tol snap in
      let positions = reconcile_positions py tol snap in
      let unknown = identify_unknown_orders py snap in
      let cash = reconcile_cash py tol snap in
      run_comparisons-step _ _ _ snap
      ∙ ap (and_others orders) (
          run_comparisons-step _ _ _ snap
          ∙ ap (and_others positions) (
              run_comparisons-step _ _ _ snap
              ∙ ap (and_others cash) (
                  run_comparisons-step _ _ _ snap
                  ∙ ap (and_others unknown) (run_comparisons-nil snap))))
      ∙ join_four orders positions cash unknown

module _ {F W : Type 0} ⦃d : Double F⦄ (py : Conversions F) (tol : Tolerances F)
    (env : Surroundings F W) where
  -- What `evaluate` gives in a state of the world.
  abbrev pub pass : W → ReconciliationResult F
  pass w = evaluate py tol (env.broker w) (env.local_state w)

  -- The state of the world after the attempt to resolve what a pass found, and what it did.
  abbrev pub attempt : W → List String × W
  attempt w = resolve_safely env (pass w) w

  -- By what a sequence from one state of the world decides: the first pass, or, if it does not permit
  -- trading and something was resolved, a further pass.
  pub data DecidesBy (w : W) : ReconciliationResult F → W → Type 0 where
    at_once : permits_trading (pass w).status ≡ true → DecidesBy w (pass w) w
    aborted : permits_trading (pass w).status ≡ false → DecidesBy w (pass w) w
    unresolved :
        permits_trading (pass w).status ≡ false
        → (attempt w).0 ≡ []
        → DecidesBy w (pass w) (attempt w).1
    again :
        permits_trading (pass w).status ≡ false
        → (attempt w).0 ≢ []
        → DecidesBy w (pass (attempt w).1) (attempt w).1

  verified-DecidesBy :
      (phases : List (PhaseOutcome F)) (w : W) (x : List String × W)
      → attempt w ≡ x
      → permits_trading (pass w).status ≡ false
      → (let seq = verified py tol env phases (pass w) x in DecidesBy w seq.result seq.world)
  verified-DecidesBy phases w ([], v) e closed =
      rw (sym (ap (λ x. x.1) e)) (unresolved closed (ap (λ x. x.0) e))
  verified-DecidesBy phases w (r ∷ rs, v) e closed =
      rw (sym (ap (λ x. x.1) e)) (again closed (λ none_left. cc (sym none_left ∙ ap (λ x. x.0) e)))

  classified-DecidesBy :
      (phases : List (PhaseOutcome F)) (snap : Snapshot F) (found : Result (List (Discrepancy F)))
      (w : W)
      → pass w ≡ verdict snap found
      → (let seq = classified py tol env phases snap found w in DecidesBy w seq.result seq.world)
  unfolding classified
  classified-DecidesBy phases snap (err raised) w e = rw (sym e) (aborted (rw e refl))
  classified-DecidesBy phases snap (ok found) w e =
      elim (Bool-cases (permits_trading (pass w).status)) [
        | inl clean ↦ rw (sym e, clean) (at_once clean)
        | inr closed ↦ rw (sym e, closed) (verified-DecidesBy _ w (attempt w) refl closed)
      ]

  pub run_sequence-DecidesBy :
      (w : W) → (let seq = run_sequence py tol env w in DecidesBy w seq.result seq.world)
  unfolding run_sequence evaluate gather
  run_sequence-DecidesBy w =
      let read_local = fetch_local (env.local_state w) empty_snapshot in
      let snap = gather (env.broker w) (env.local_state w) in
      let (outcomes, found) = run_comparisons (comparisons py tol) snap in
      classified-DecidesBy (opening read_local.unavailable snap.unavailable ++ outcomes) snap found
        w (ap (verdict snap) (sym (comparisons-compare_all py tol snap)))
