-- ===== src/Reconcile/Engine/Verdict.antt =====
-- When `evaluate` of reconciliation.py permits trading.
use algo_dollar.Base.{
  ◌≡◌, refl, sym, ◌∙◌, ap, String, true, Option, none, some, List, [], ◌∷◌, ◌++◌, ◌↔◌, arith, inl,
  inr,
}
use algo_dollar.Errors.{Result, ok, err, Result-cases}
use algo_dollar.Double.{Double}
use algo_dollar.Reconcile.Values.{Row, Conversions}
use algo_dollar.Reconcile.Status.{permits_trading}
use algo_dollar.Reconcile.Found.{Discrepancy}
use algo_dollar.Reconcile.Snapshot.{Snapshot, Tolerances}
use algo_dollar.Reconcile.Engine.{
  Fetched, given, unusable, Source, safe_fetch, fetch_local, fetch_broker, gather, classify,
  compare_all, verdict, evaluate, is_empty,
}

-- What a source returned, if all its four reads returned something usable.
pub record Holdings (F : Type 0) : Type 0 where
  pub positions : List (Row F)
  pub orders : List (Row F)
  pub trades : List (Row F)
  pub cash : Row F

pub record Reads {F : Type 0} (source : Source F) (h : Holdings F) : Type 0 where
  pub positions : source.get_positions ≡ ok (given h.positions)
  pub orders : source.get_orders ≡ ok (given h.orders)
  pub trades : source.get_trades ≡ ok (given h.trades)
  pub cash : source.get_cash ≡ ok (given h.cash)

not_empty : {A : Type 0} (xs ys : List A) (x : A) → is_empty (xs ++ x ∷ ys) ≡ true → ⊥
not_empty [] ys x h = cc
not_empty (_ ∷ _) ys x h = cc

safe_fetch_clean :
    {A : Type 0} (m : Result (Fetched A)) (name : String) (before : List String)
    → is_empty (safe_fetch m name before).1 ≡ true
    → (a : A) × (m ≡ ok (given a)) × (before ≡ [])
unfolding safe_fetch
safe_fetch_clean (ok (given a)) name [] h = (a, refl, refl)
safe_fetch_clean (ok (given a)) name (b ∷ before) h = ground arith
safe_fetch_clean (ok unusable) name [] h = ground arith
safe_fetch_clean (ok unusable) name (b ∷ before) h = ground arith
safe_fetch_clean (err e) name [] h = ground arith
safe_fetch_clean (err e) name (b ∷ before) h = ground arith

module _ {F : Type 0} where
  -- The snapshot of two sides that were read in full.
  abbrev pub snapshot_of : (broker local : Holdings F) → Snapshot F
  snapshot_of b l = record {
    broker_positions = some b.positions;
    broker_orders = some b.orders;
    broker_trades = some b.trades;
    broker_cash = some b.cash;
    local_positions = some l.positions;
    local_orders = some l.orders;
    local_trades = some l.trades;
    local_cash = some l.cash;
    unavailable = [];
  }

  abbrev with_broker : Holdings F → Snapshot F → Snapshot F
  with_broker h snap = record snap {
    broker_positions = some h.positions;
    broker_orders = some h.orders;
    broker_trades = some h.trades;
    broker_cash = some h.cash;
    unavailable = [];
  }

  fetch_local_clean :
      (store : Option (Source F)) (snap : Snapshot F)
      → is_empty (fetch_local store snap).unavailable ≡ true
      → (s : Source F) × (store ≡ some s)
        × (h : Holdings F) × Reads s h
        × (fetch_local store snap ≡ record snap {
          local_positions = some h.positions;
          local_orders = some h.orders;
          local_trades = some h.trades;
          local_cash = some h.cash;
          unavailable = [];
        })
  unfolding fetch_local
  fetch_local_clean none snap h = absurd (not_empty snap.unavailable _ "local_positions" h)
  fetch_local_clean (some s) snap h =
      let (p, u1) = safe_fetch s.get_positions "local_positions" snap.unavailable in
      let (o, u2) = safe_fetch s.get_orders "local_orders" u1 in
      let (t, u3) = safe_fetch s.get_trades "local_trades" u2 in
      let (cash, c, e3) = safe_fetch_clean s.get_cash "local_cash" u3 h in
      let (trades, t', e2) = safe_fetch_clean s.get_trades "local_trades" u2 (rw e3 refl) in
      let (orders, o', e1) = safe_fetch_clean s.get_orders "local_orders" u1 (rw e2 refl) in
      let (positions, p', e0) =
        safe_fetch_clean s.get_positions "local_positions" snap.unavailable (rw e1 refl) in
      (
        s,
        refl,
        record { positions = positions; orders = orders; trades = trades; cash = cash },
        record { positions = p'; orders = o'; trades = t'; cash = c },
        rw p' (rw o' (rw t' (rw c (rw e0 refl)))),
      )

  fetch_broker_clean :
      (s : Source F) (snap : Snapshot F)
      → is_empty (fetch_broker s snap).unavailable ≡ true
      → (h : Holdings F) × Reads s h
        × (snap.unavailable ≡ [])
        × (fetch_broker s snap ≡ with_broker h snap)
  unfolding fetch_broker
  fetch_broker_clean s snap h =
      let (p, u1) = safe_fetch s.get_positions "broker_positions" snap.unavailable in
      let (o, u2) = safe_fetch s.get_orders "broker_orders" u1 in
      let (t, u3) = safe_fetch s.get_trades "broker_trades" u2 in
      let (cash, c, e3) = safe_fetch_clean s.get_cash "broker_cash" u3 h in
      let (trades, t', e2) = safe_fetch_clean s.get_trades "broker_trades" u2 (rw e3 refl) in
      let (orders, o', e1) = safe_fetch_clean s.get_orders "broker_orders" u1 (rw e2 refl) in
      let (positions, p', e0) =
        safe_fetch_clean s.get_positions "broker_positions" snap.unavailable (rw e1 refl) in
      (
        record { positions = positions; orders = orders; trades = trades; cash = cash },
        record { positions = p'; orders = o'; trades = t'; cash = c },
        e0,
        rw p' (rw o' (rw t' (rw c (rw e0 refl)))),
      )

  -- A pass with nothing unavailable has read both sides in full.
  gather_clean :
      (broker : Source F) (store : Option (Source F))
      → is_empty (gather broker store).unavailable ≡ true
      → (b : Holdings F) × Reads broker b
        × (s : Source F) × (store ≡ some s)
        × (l : Holdings F) × Reads s l
        × (gather broker store ≡ snapshot_of b l)
  unfolding gather
  gather_clean broker store h =
      let (b, b_reads, e, snap) = fetch_broker_clean broker (fetch_local store _) h in
      let (s, same, l, l_reads, local_snap) = fetch_local_clean store _ (rw e refl) in
      (b, b_reads, s, same, l, l_reads, snap ∙ ap (with_broker b) local_snap)

  pub gather-Reads :
      (broker s : Source F) (b l : Holdings F)
      → Reads broker b
      → Reads s l
      → gather broker (some s) ≡ snapshot_of b l
  unfolding gather fetch_broker fetch_local safe_fetch
  gather-Reads broker s b l rb rs = rw rs.positions (
      rw rs.orders (
        rw rs.trades
          (rw rs.cash (rw rb.positions (rw rb.orders (rw rb.trades (rw rb.cash refl)))))))

  pub classify_permits :
      (snap : Snapshot F) (found : List (Discrepancy F))
      → permits_trading (classify snap found).status ≡ true
      → (is_empty snap.unavailable ≡ true) × (found ≡ [])
  unfolding classify
  classify_permits snap found h = ground arith

module _ {F : Type 0} ⦃d : Double F⦄ (py : Conversions F) (tol : Tolerances F) where
  -- Both sides were read in full, and nothing was found between them.
  pub record IsReconciled (broker : Source F) (store : Option (Source F)) : Type 0 where
    pub broker_holds : Holdings F
    pub broker_reads : Reads broker broker_holds
    pub local : Source F
    pub has_local : store ≡ some local
    pub local_holds : Holdings F
    pub local_reads : Reads local local_holds
    pub nothing_found : compare_all py tol (snapshot_of broker_holds local_holds) ≡ ok []

  permitted :
      (broker : Source F) (store : Option (Source F))
      → permits_trading (evaluate py tol broker store).status ≡ true
      → IsReconciled broker store
  unfolding evaluate
  permitted broker store h = elim (Result-cases (compare_all py tol (gather broker store))) [
    | inl (found, e) ↦
        let (clean, none_found) = classify_permits (gather broker store) found (rw e at h) in
        let (b, b_reads, s, same, l, l_reads, snap) = gather_clean broker store clean in
        record {
          broker_holds = b;
          broker_reads = b_reads;
          local = s;
          has_local = same;
          local_holds = l;
          local_reads = l_reads;
          nothing_found =
              ap (compare_all py tol) (sym snap)
              ∙ e
              ∙ ap (λ (xs : List (Discrepancy F)). ok xs) none_found;
        }
    | inr (x, e) ↦ cc (rw e at h)
  ]

  -- `evaluate` permits trading exactly if there is a local store, all eight fetches returned
  -- something usable, and the five comparisons of what they returned raised nothing and found
  -- nothing.
  pub evaluate_iff :
      (broker : Source F) (store : Option (Source F))
      → (permits_trading (evaluate py tol broker store).status ≡ true) ↔ IsReconciled broker store
  unfolding evaluate classify
  evaluate_iff broker store = (
    permitted broker store,
    λ r.
        let b = r.broker_holds in
        let l = r.local_holds in
        let snap =
          ap (gather broker) r.has_local
          ∙ gather-Reads broker r.local b l r.broker_reads r.local_reads in
        ap (λ s. permits_trading (verdict s (compare_all py tol s)).status) snap
        ∙ ap (λ found. permits_trading (verdict (snapshot_of b l) found).status) r.nothing_found,
  )
