-- ===== src/Reconcile/Engine/Agreed.antt =====
-- What is true of the two sides when `reconcile` of reconciliation.py returns.
use algo_dollar.Base.{
  ℕ, ◌≤◌, ◌≡◌, refl, sym, ◌∙◌, ap, String, Bool, true, false, ◌⊎◌, inl, inr, ◌≢◌, Option, none,
  some, List, [], ◌++◌, ℤ, pos, ltb_ℤ, All, Bool-cases,
}
use algo_dollar.Base.Member.{contains}
use algo_dollar.Errors.{Result, ok, err, ◌>>=◌, Result-cases}
use algo_dollar.Double.{Double}
use algo_dollar.Reconcile.Values.{through_float, Conversions}
use algo_dollar.Reconcile.Status.{ReconciliationStatus, permits_trading}
use algo_dollar.Reconcile.Found.{append_nothing}
use algo_dollar.Reconcile.Snapshot.{Snapshot, Tolerances, qty_differs}
use algo_dollar.Reconcile.Fills.Totals.{fills_of, FillsAgree, reconcile_fills-agree}
use algo_dollar.Reconcile.Orders.{reconcile_orders, identify_unknown_orders}
use algo_dollar.Reconcile.Orders.Open.{
  latest, OpenAgree, reconcile_orders_parts, reconcile_orders-agree,
}
use algo_dollar.Reconcile.Orders.Known.{IsTraceable, IsKnown, identify_unknown_orders-All}
use algo_dollar.Reconcile.Positions.{cash_fields, reconcile_positions, reconcile_cash}
use algo_dollar.Reconcile.Positions.Net.{magnitude, net_qty, gross_qty}
use algo_dollar.Reconcile.Positions.Agree.{reconcile_positions-agree}
use algo_dollar.Reconcile.Positions.Cash.{FieldAgrees, reconcile_cash_iff}
use algo_dollar.Reconcile.Engine.{
  ReconciliationResult, Source, HaltStore, compare_all, verdict, evaluate, activate_kill_switch,
  after_activation, enforce, reconcile,
}
use algo_dollar.Reconcile.Engine.Verdict.{
  Holdings, Reads, snapshot_of, gather-Reads, classify_permits,
}

-- Four steps that together find nothing.
four_nothing :
    {B : Type 0} (m n c u : Result (List B))
    → (m >>= λ xs. n >>= λ ys. c >>= λ cs. u >>= λ zs. ok (xs ++ (ys ++ (cs ++ zs)))) ≡ ok []
    → (m ≡ ok []) × (n ≡ ok []) × (c ≡ ok []) × (u ≡ ok [])
four_nothing (err e) n c u h = cc
four_nothing (ok xs) (err e) c u h = cc
four_nothing (ok xs) (ok ys) (err e) u h = cc
four_nothing (ok xs) (ok ys) (ok cs) (err e) h = cc
four_nothing (ok xs) (ok ys) (ok cs) (ok zs) h =
    let (x, r1) = append_nothing xs (ys ++ (cs ++ zs)) (cc) in
    let (y, r2) = append_nothing ys (cs ++ zs) r1 in
    let (c, z) = append_nothing cs zs r2 in
    (ap (λ xs. ok xs) x, ap (λ xs. ok xs) y, ap (λ xs. ok xs) c, ap (λ xs. ok xs) z)

module _ {F K : Type 0} where
  after_activation_raises :
      (r : ReconciliationResult F) (w : Result (Unit {0}) × K) (out : ReconciliationResult F)
      → (after_activation true r w).0 ≢ ok out
  after_activation_raises r (ok u, k) out h = cc
  after_activation_raises r (err e, k) out h = cc

  -- With `raise_on_failure` a call that returns had a result that permits trading.
  pub enforce_returns :
      (store : Option (HaltStore K)) (kill_on : ReconciliationStatus → Bool)
      (r : ReconciliationResult F) (k : K) (out : ReconciliationResult F)
      → (enforce store kill_on true r k).0 ≡ ok out
      → permits_trading r.status ≡ true
  unfolding enforce
  enforce_returns store kill_on r k out h = elim (Bool-cases (permits_trading r.status)) [
    | inl e ↦ e
    | inr e ↦ elim (Bool-cases (kill_on r.status)) [
      | inl on ↦
          absurd
            (after_activation_raises r (activate_kill_switch store k) out (rw on at (rw e at h)))
      | inr off ↦ cc (rw off at (rw e at h))
    ]
  ]

module _ {F : Type 0} ⦃d : Double F⦄ (py : Conversions F) (tol : Tolerances F) where
  pub compare_all_nothing :
      (snap : Snapshot F)
      → compare_all py tol snap ≡ ok []
      → (reconcile_orders py tol snap ≡ ok [])
        × (reconcile_positions py tol snap ≡ ok [])
        × (reconcile_cash py tol snap ≡ ok [])
        × (identify_unknown_orders py snap ≡ ok [])
  unfolding compare_all
  compare_all_nothing snap h =
      four_nothing (reconcile_orders py tol snap) (reconcile_positions py tol snap)
        (reconcile_cash py tol snap) (identify_unknown_orders py snap) h

  permits_nothing :
      (broker local : Source F) (b l : Holdings F)
      → Reads broker b
      → Reads local l
      → permits_trading (evaluate py tol broker (some local)).status ≡ true
      → compare_all py tol (snapshot_of b l) ≡ ok []
  unfolding evaluate
  permits_nothing broker local b l rb rl h =
      let snap = gather-Reads broker local b l rb rl in
      let permitted : permits_trading
            (verdict (snapshot_of b l) (compare_all py tol (snapshot_of b l))).status
          ≡ true =
        ap (λ s. permits_trading (verdict s (compare_all py tol s)).status) (sym snap) ∙ h in
      elim (Result-cases (compare_all py tol (snapshot_of b l))) [
        | inl (found, e) ↦
            let (_, none_found) = classify_permits (snapshot_of b l) found (rw e at permitted) in
            e ∙ ap (λ xs. ok xs) none_found
        | inr (x, e) ↦ cc (rw e at permitted)
      ]

module _ {F : Type 0} ⦃d : Double F⦄ (py : Conversions F) (tol : Tolerances F) where
  -- The stored state says of every order, key and fund what the broker says.
  pub record Agreed (b l : Holdings F) : Type 0 where
    pub open_orders :
        (oid : String)
        → OpenAgree py tol (latest py oid none b.orders) (latest py oid none l.orders)
    pub fills :
        (oid : String)
        → ((fills_of py oid b.trades ≡ []) × (fills_of py oid l.trades ≡ []))
          ⊎ FillsAgree py tol (fills_of py oid b.trades) (fills_of py oid l.trades)
    pub positions :
        (key : String)
        → (broker_net local_net : ℤ) × (net_qty py key b.positions ≡ ok broker_net)
          × (net_qty py key l.positions ≡ ok local_net)
          × (qty_differs tol.qty broker_net local_net ≡ false)
    pub funds : All (FieldAgrees py tol b.cash l.cash) cash_fields
    pub traceable : All IsTraceable l.orders
    pub known : All IsKnown b.orders

  -- If `reconcile` returns, with `raise_on_failure`, from two sides that were read in full, then the
  -- stored state agrees with the broker's: on which orders are open and how far they are filled, on
  -- the fills of every order, on the net quantity of every position and on each field of the funds
  -- that both sides have, each up to the tolerances (a NaN differs from nothing); and no order's
  -- state is unknown. Floats hold whole numbers up to a bound, within which the position quantities
  -- of each side, added up without their signs, stay, and the quantity tolerance is not negative.
  pub reconcile-Agreed :
      {K : Type 0} (bound : ℕ) (exact : (n : ℤ) → magnitude n ≤ bound → through_float py n ≡ ok n)
      (store : Option (HaltStore K)) (kill_on : ReconciliationStatus → Bool)
      (broker local : Source F) (b l : Holdings F) (k : K) (out : ReconciliationResult F)
      → ltb_ℤ tol.qty (pos 0) ≡ false
      → Reads broker b
      → Reads local l
      → gross_qty py b.positions ≤ bound
      → gross_qty py l.positions ≤ bound
      → (reconcile py tol store kill_on true broker (some local) k).0 ≡ ok out
      → Agreed b l
  unfolding reconcile contains
  reconcile-Agreed bound exact store kill_on broker local b l k out t rb rl b_small l_small h =
      let snap = snapshot_of b l in
      let permits = enforce_returns store kill_on (evaluate py tol broker (some local)) k out h in
      let (orders, positions, funds, unknown) =
        compare_all_nothing py tol snap (permits_nothing py tol broker local b l rb rl permits) in
      let (_, _, _, _, _, fills) = reconcile_orders_parts py tol snap orders in
      let (traceable, known) = identify_unknown_orders-All py snap refl unknown in
      record {
        open_orders = λ oid. reconcile_orders-agree py tol snap oid orders;
        fills = λ oid. reconcile_fills-agree py tol snap oid fills;
        positions = λ key.
            reconcile_positions-agree py bound exact tol snap key t b_small l_small positions;
        funds = ((reconcile_cash_iff py tol snap).0 funds).1;
        traceable = traceable;
        known = known;
      }
