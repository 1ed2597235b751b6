-- ===== src/Reconcile/Positions/Agree.antt =====
-- What `reconcile_positions` of reconciliation.py guarantees when it finds nothing: the net quantity of
-- every key is the same on both sides.
use algo_dollar.Base.{
  ℕ, ◌≤◌, ◌≡◌, refl, ap, ◌∙◌, String, Bool, true, false, not, ◌&&◌, Option, none, some, [], ℤ, pos,
  ◌-ℤ◌, eq_ℤ, eq_ℤ_iff, ltb_ℤ, arith, Bool-cases, Option-cases, inl, inr,
}
use algo_dollar.Base.Dict.{Dict, lookup, has_key}
use algo_dollar.Errors.{ok, >>=-eq-ok}
use algo_dollar.Double.{Double}
use algo_dollar.Reconcile.Values.{through_float, float_of, Row, Conversions, int_of}
use algo_dollar.Reconcile.Found.{each, nothing_found, each-lookup, note_nothing, notes_nothing}
use algo_dollar.Reconcile.Snapshot.{Snapshot, Tolerances, rows_or, comparable, qty_differs}
use algo_dollar.Reconcile.Positions.{
  position_map, broker_position, is_flat_at, local_position, compare_held, common_position,
  compare_positions, reconcile_positions,
}
use algo_dollar.Reconcile.Positions.Net.{magnitude, net_qty, gross_qty, qty_of, position_map-net}

module _ {F : Type 0} ⦃d : Double F⦄ (py : Conversions F) where
  -- The entries of a key hold quantities that do not differ.
  abbrev EntriesAgree : Tolerances F → (broker local : Option (Row F)) → Type 0
  EntriesAgree tol b l =
      (bq lq : ℤ) × (qty_of py b ≡ ok bq)
      × (qty_of py l ≡ ok lq)
      × (qty_differs tol.qty bq lq ≡ false)

  compare_held_agree :
      (tol : Tolerances F) (key : String) (b l : Row F)
      → compare_held py tol key b l ≡ ok []
      → EntriesAgree tol (some b) (some l)
  unfolding compare_held
  compare_held_agree tol key b l h =
      let (bq, e1, h1) = >>=-eq-ok (int_of py b "quantity") _ h in
      let (lq, e2, h2) = >>=-eq-ok (int_of py l "quantity") _ h1 in
      let (bp, e3, h3) = >>=-eq-ok (float_of py b "average_price") _ h2 in
      let (lp, e4, h4) = >>=-eq-ok (float_of py l "average_price") _ h3 in
      (bq, lq, e1, e2, (notes_nothing (qty_differs tol.qty bq lq) _ _ _ h4).0)

  flat_agree : (tol : ℤ) → ltb_ℤ tol (pos 0) ≡ false → qty_differs tol (pos 0) (pos 0) ≡ false
  unfolding qty_differs ◌-ℤ◌
  flat_agree tol h = h

  zero_of_quiet :
      (z : Bool) (entry : Option (Row F))
      → (not z && not (elim entry [ none ↦ false | some _ ↦ true ])) ≡ false
      → entry ≡ none
      → z ≡ true
  zero_of_quiet z none h e = ground arith
  zero_of_quiet z (some r) h e = cc

  broker_position_nothing :
      (ls : Dict (Row F)) (key : String) (b : Row F)
      → lookup key ls ≡ none
      → broker_position py ls key b ≡ ok []
      → int_of py b "quantity" ≡ ok (pos 0)
  unfolding broker_position has_key
  broker_position_nothing ls key b e h =
      let (q, r, h1) = >>=-eq-ok (int_of py b "quantity") _ h in
      let quiet = note_nothing (not (eq_ℤ q (pos 0)) && not (has_key key ls)) _ h1 in
      let zero_qty : eq_ℤ q (pos 0) ≡ true =
        zero_of_quiet (eq_ℤ q (pos 0)) (lookup key ls) quiet e in
      r ∙ ap ok ((eq_ℤ_iff q (pos 0)).0 zero_qty)

  local_position_nothing :
      (bs : Dict (Row F)) (key : String) (l : Row F)
      → lookup key bs ≡ none
      → local_position py bs key l ≡ ok []
      → int_of py l "quantity" ≡ ok (pos 0)
  unfolding local_position is_flat_at
  local_position_nothing bs key l e h =
      let (q, r, h1) = >>=-eq-ok (int_of py l "quantity") _ h in
      elim (Bool-cases (eq_ℤ q (pos 0))) [
        | inl zero_qty ↦ r ∙ ap ok ((eq_ℤ_iff q (pos 0)).0 zero_qty)
        | inr held ↦ cc (rw (e, is_flat_at) at (rw held at h1))
      ]

  compare_positions_agree :
      (tol : Tolerances F) (key : String) (bs ls : Dict (Row F))
      → ltb_ℤ tol.qty (pos 0) ≡ false
      → compare_positions py tol bs ls ≡ ok []
      → EntriesAgree tol (lookup key bs) (lookup key ls)
  unfolding compare_positions
  compare_positions_agree tol key bs ls t h =
      let (first, others) = nothing_found (each (broker_position py ls) bs) _ h in
      let (second, third) = nothing_found (each (local_position py bs) ls) _ others in
      let flat = flat_agree tol.qty t in
      elim (Option-cases (lookup key bs)) [
        | inl none_b ↦ elim (Option-cases (lookup key ls)) [
          | inl none_l ↦ rw none_b (rw none_l (pos 0, pos 0, refl, refl, flat))
          | inr (l, some_l) ↦
              let none_held =
                local_position_nothing bs key l none_b
                  (each-lookup (local_position py bs) key l ls second some_l) in
              rw none_b (rw some_l (pos 0, pos 0, refl, none_held, flat))
        ]
        | inr (b, some_b) ↦ elim (Option-cases (lookup key ls)) [
          | inl none_l ↦
              let none_held =
                broker_position_nothing ls key b none_l
                  (each-lookup (broker_position py ls) key b bs first some_b) in
              rw some_b (rw none_l (pos 0, pos 0, none_held, refl, flat))
          | inr (l, some_l) ↦
              let both = each-lookup (common_position py tol ls) key b bs third some_b in
              rw some_b
                (rw some_l (compare_held_agree tol key b l (rw (some_l, common_position) at both)))
        ]
      ]

  -- What was compared, where nothing was found.
  reconcile_positions_parts :
      (tol : Tolerances F) (snap : Snapshot F)
      → reconcile_positions py tol snap ≡ ok []
      → (bs ls : Dict (Row F)) × (position_map py (rows_or snap.broker_positions) ≡ ok bs)
        × (position_map py (rows_or snap.local_positions) ≡ ok ls)
        × (compare_positions py tol bs ls ≡ ok [])
  unfolding reconcile_positions
  reconcile_positions_parts tol snap h =
      elim (Bool-cases (comparable "broker_positions" "local_positions" snap)) [
        | inl e ↦
            let (bs, b_map, h1) =
              >>=-eq-ok (position_map py (rows_or snap.broker_positions)) _
                (rw (e, reconcile_positions) at h) in
            let (ls, l_map, same) =
              >>=-eq-ok (position_map py (rows_or snap.local_positions)) _ h1 in
            (bs, ls, b_map, l_map, same)
        | inr e ↦ cc (rw (e, reconcile_positions) at h)
      ]

  pub reconcile_positions-agree :
      (bound : ℕ) (exact : (n : ℤ) → magnitude n ≤ bound → through_float py n ≡ ok n)
      (tol : Tolerances F) (snap : Snapshot F) (key : String)
      → ltb_ℤ tol.qty (pos 0) ≡ false
      → gross_qty py (rows_or snap.broker_positions) ≤ bound
      → gross_qty py (rows_or snap.local_positions) ≤ bound
      → reconcile_positions py tol snap ≡ ok []
      → (broker_net local_net : ℤ) × (net_qty py key (rows_or snap.broker_positions)
          ≡ ok broker_net)
        × (net_qty py key (rows_or snap.local_positions) ≡ ok local_net)
        × (qty_differs tol.qty broker_net local_net ≡ false)
  reconcile_positions-agree bound exact tol snap key t b_small l_small h =
      let (bs, ls, b_map, l_map, same) = reconcile_positions_parts tol snap h in
      let (bq, lq, b_at, l_at, agree) = compare_positions_agree tol key bs ls t same in
      (
        bq,
        lq,
        position_map-net py bound exact key (rows_or snap.broker_positions) bs bq b_small b_map
            b_at,
        position_map-net py bound exact key (rows_or snap.local_positions) ls lq l_small l_map l_at,
        agree,
      )
