-- ===== src/Reconcile/Fills/Totals.antt =====
-- What `_reconcile_fills` of reconciliation.py guarantees when it finds nothing.
use mathlib.Core.List.{append-nil, append_assoc}
use algo_dollar.Base.{
  ◌≡◌, refl, sym, ◌∙◌, ap, String, ◌==◌, eq_iff, Bool, true, false, not, ◌&&◌, Option, none, some,
  List, [], ◌∷◌, ◌++◌, ℤ, length, keep_if, if◌then◌else◌, arith, Bool-cases, Option-cases, inl, inr,
  ◌⊎◌, ◌≢◌,
}
use algo_dollar.Base.Dict.{Dict, lookup, lookup-insert, has_key}
use algo_dollar.Errors.{ok, >>=-eq-ok}
use algo_dollar.Double.{Double}
use algo_dollar.Reconcile.Values.{Row, Conversions, field_of, text_of}
use algo_dollar.Reconcile.Found.{each, nothing_found, each-lookup, always_found}
use algo_dollar.Reconcile.Snapshot.{Snapshot, Tolerances, rows_or, qty_differs, price_differs}
use algo_dollar.Reconcile.Fills.{
  FillGroup, is_missing_id, total_qty, vwap, add_fill, group_one, group_from, group_fills,
  group_notes, compare_groups, broker_group, local_group, compare_fills, reconcile_fills,
}

module _ {F : Type 0} ⦃d : Double F⦄ where
  group_notes_nothing :
      (tol : Tolerances F) (oid : String) (b l : FillGroup F) (bq lq : ℤ) (bp lp : F)
      → group_notes tol oid b l bq lq bp lp ≡ []
      → (qty_differs tol.qty bq lq ≡ false)
        × (length b.fills ≡ length l.fills)
        × (price_differs bp lp tol.price_pct ≡ false)
  unfolding group_notes
  group_notes_nothing tol oid b l bq lq bp lp h = ground arith

module _ {F : Type 0} ⦃d : Double F⦄ (py : Conversions F) where
  -- The trade is an execution of the order.
  abbrev pub is_fill_of : String → Row F → Bool
  is_fill_of oid t =
      not (is_missing_id (field_of t "order_id")) && text_of py (field_of t "order_id") == oid

  abbrev pub fills_of : String → List (Row F) → List (Row F)
  fills_of oid trades = keep_if (is_fill_of oid) trades

  abbrev fills_in : Option (FillGroup F) → List (Row F)
  fills_in none = []
  fills_in (some g) = g.fills

  fills_in-add_fill :
      (t : Row F) (oid : String) (g : Option (FillGroup F))
      → fills_in (some (add_fill py t oid g)) ≡ fills_in g ++ t ∷ []
  fills_in-add_fill t oid none = refl
  fills_in-add_fill t oid (some g) = refl

  group_one_fills :
      (oid : String) (t : Row F) (groups : Dict (FillGroup F))
      → fills_in (lookup oid (group_one py t groups))
        ≡ fills_in (lookup oid groups) ++ (if is_fill_of oid t then t ∷ [] else [])
  unfolding group_one
  group_one_fills oid t groups =
      let id = text_of py (field_of t "order_id") in
      elim (Bool-cases (is_missing_id (field_of t "order_id"))) [
        | inl e ↦ rw e (sym (append-nil _))
        | inr e ↦ rw e (
            rw (lookup-insert id oid (add_fill py t id (lookup id groups)) groups)
              (elim (Bool-cases (id == oid)) [
                | inl same ↦ rw same (
                    fills_in-add_fill t id (lookup id groups)
                    ∙ ap (λ k. fills_in (lookup k groups) ++ t ∷ []) ((eq_iff id oid).0 same))
                | inr other ↦ rw other (sym (append-nil _))
              ]))
      ]

  group_from_fills :
      (oid : String) (groups : Dict (FillGroup F)) (trades : List (Row F))
      → fills_in (lookup oid (group_from py groups trades))
        ≡ fills_in (lookup oid groups) ++ fills_of oid trades
  unfolding group_from
  group_from_fills oid groups [] = sym (append-nil _)
  group_from_fills oid groups (t ∷ trades) =
      group_from_fills oid (group_one py t groups) trades
      ∙ ap (λ fs. fs ++ fills_of oid trades) (group_one_fills oid t groups)
      ∙ append_assoc (fills_in (lookup oid groups)) _ (fills_of oid trades)
      ∙ ap (λ fs. fills_in (lookup oid groups) ++ fs) (joined (is_fill_of oid t))
    where
      joined :
          (b : Bool)
          → (if b then t ∷ [] else []) ++ fills_of oid trades
            ≡ (if b then t ∷ fills_of oid trades else fills_of oid trades)
      joined true = refl
      joined false = refl

  -- The groups keep every fill of an order, in order.
  group_fills_lem :
      (oid : String) (trades : List (Row F))
      → fills_in (lookup oid (group_fills py trades)) ≡ fills_of oid trades
  unfolding group_fills lookup
  group_fills_lem oid trades = group_from_fills oid [] trades

  -- Two lists of fills that agree: the same quantity up to the tolerance, as many fills, and average
  -- prices that do not differ.
  pub record FillsAgree (tol : Tolerances F) (broker local : List (Row F)) : Type 0 where
    pub broker_qty : ℤ
    pub local_qty : ℤ
    pub broker_total : total_qty py broker ≡ ok broker_qty
    pub local_total : total_qty py local ≡ ok local_qty
    pub qty_agrees : qty_differs tol.qty broker_qty local_qty ≡ false
    pub count_agrees : length broker ≡ length local
    pub broker_price : F
    pub local_price : F
    pub broker_vwap : vwap py broker ≡ ok broker_price
    pub local_vwap : vwap py local ≡ ok local_price
    pub price_agrees : price_differs broker_price local_price tol.price_pct ≡ false

  compare_groups_agree :
      (tol : Tolerances F) (oid : String) (b l : FillGroup F)
      → compare_groups py tol oid b l ≡ ok []
      → FillsAgree tol b.fills l.fills
  unfolding compare_groups
  compare_groups_agree tol oid b l h =
      let (bq, b_total, h1) = >>=-eq-ok (total_qty py b.fills) _ h in
      let (lq, l_total, h2) = >>=-eq-ok (total_qty py l.fills) _ h1 in
      let (bp, b_price, h3) = >>=-eq-ok (vwap py b.fills) _ h2 in
      let (lp, l_price, h4) = >>=-eq-ok (vwap py l.fills) _ h3 in
      let none_noted : group_notes tol oid b l bq lq bp lp ≡ [] = cc in
      let (qty, count, price) = group_notes_nothing tol oid b l bq lq bp lp none_noted in
      record {
        broker_qty = bq;
        local_qty = lq;
        broker_total = b_total;
        local_total = l_total;
        qty_agrees = qty;
        count_agrees = count;
        broker_price = bp;
        local_price = lp;
        broker_vwap = b_price;
        local_vwap = l_price;
        price_agrees = price;
      }

  broker_group_nothing :
      (tol : Tolerances F) (ls : Dict (FillGroup F)) (oid : String) (b : FillGroup F)
      → broker_group py tol ls oid b ≡ ok []
      → (l : FillGroup F) × (lookup oid ls ≡ some l) × FillsAgree tol b.fills l.fills
  unfolding broker_group
  broker_group_nothing tol ls oid b h = elim (Option-cases (lookup oid ls)) [
    | inl e ↦ absurd (always_found (total_qty py b.fills) _ (rw (e, broker_group) at h))
    | inr (l, e) ↦ (l, e, compare_groups_agree tol oid b l (rw (e, broker_group) at h))
  ]

  local_group_nothing :
      (bs : Dict (FillGroup F)) (oid : String) (l : FillGroup F)
      → local_group py bs oid l ≡ ok []
      → lookup oid bs ≢ none
  unfolding local_group has_key
  local_group_nothing bs oid l h e =
      always_found (total_qty py l.fills) _ (rw (e, local_group, has_key) at h)

  compare_fills_agree :
      (tol : Tolerances F) (oid : String) (bs ls : Dict (FillGroup F))
      → compare_fills py tol bs ls ≡ ok []
      → ((fills_in (lookup oid bs) ≡ []) × (fills_in (lookup oid ls) ≡ []))
        ⊎ FillsAgree tol (fills_in (lookup oid bs)) (fills_in (lookup oid ls))
  unfolding compare_fills
  compare_fills_agree tol oid bs ls h =
      let (first, second) = nothing_found (each (broker_group py tol ls) bs) _ h in
      elim (Option-cases (lookup oid bs)) [
        | inl none_b ↦ elim (Option-cases (lookup oid ls)) [
          | inl none_l ↦ inl (rw none_b refl, rw none_l refl)
          | inr (l, some_l) ↦ absurd (
              local_group_nothing bs oid l (each-lookup (local_group py bs) oid l ls second some_l)
                none_b)
        ]
        | inr (b, some_b) ↦
            let (l, some_l, agree) =
              broker_group_nothing tol ls oid b
                (each-lookup (broker_group py tol ls) oid b bs first some_b) in
            inr (rw some_b (rw some_l agree))
      ]

  -- If the executions of both sides were read and the comparison finds nothing, then every order has
  -- no fills on either side, or the same filled quantity up to the tolerance, the same number of
  -- fills and average prices that do not differ.
  pub reconcile_fills-agree :
      (tol : Tolerances F) (snap : Snapshot F) (oid : String)
      → reconcile_fills py tol snap ≡ ok []
      → ((fills_of oid (rows_or snap.broker_trades) ≡ [])
          × (fills_of oid (rows_or snap.local_trades) ≡ []))
        ⊎ FillsAgree tol
            (fills_of oid (rows_or snap.broker_trades))
            (fills_of oid (rows_or snap.local_trades))
  unfolding reconcile_fills
  reconcile_fills-agree tol snap oid h =
      let b = rows_or snap.broker_trades in
      let l = rows_or snap.local_trades in
      let agree : ((fills_in (lookup oid (group_fills py b)) ≡ [])
            × (fills_in (lookup oid (group_fills py l)) ≡ []))
          ⊎ FillsAgree tol (fills_in (lookup oid (group_fills py b)))
              (fills_in (lookup oid (group_fills py l))) =
        compare_fills_agree tol oid (group_fills py b) (group_fills py l) (ground arith) in
      rw (group_fills_lem oid b) at (rw (group_fills_lem oid l) at agree)
