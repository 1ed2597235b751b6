-- ===== src/Reconcile/Positions/Net.antt =====
-- What `reconcile_positions` of reconciliation.py guarantees when it finds nothing: the net quantity of
-- every key is the same on both sides.
use algo_dollar.Base.{
  ℕ, ◌+◌, ◌≤◌, ◌≡◌, refl, sym, ◌∙◌, ap, subst, String, ◌==◌, eq_iff, true, false, Option, none,
  some, List, [], ◌∷◌, ℤ, pos, pos_part, neg_part, ◌+ℤ◌, int_laws, if◌then◌else◌, arith, Bool-cases,
  Option-cases, inl, inr, ◌⊎◌,
}
use algo_dollar.Base.Dict.{Dict, lookup, insert, lookup-insert}
use algo_dollar.Errors.{Result, ok, err, ◌>>=◌, >>=-eq-ok}
use algo_dollar.Double.{Double}
use algo_dollar.Reconcile.Values.{
  through_float, whole_or, float_of, int, float, Row, Conversions, field_of, to_float, int_of,
}
use algo_dollar.Reconcile.Positions.{
  key_of_position, merged_row, merged_price, merge_rows, place_row, position_map_from, position_map,
}

-- How large a quantity is.
abbrev pub magnitude : ℤ → ℕ
magnitude n = pos_part n + neg_part n

magnitude-add : (a b : ℤ) → magnitude (a +ℤ b) ≤ magnitude a + magnitude b
unfolding ◌+ℤ◌
magnitude-add a b = ground arith

module _ {F : Type 0} ⦃d : Double F⦄ (py : Conversions F) where
  -- The sum of the quantities of the rows of one key.
  unfoldable pub net_qty : String → List (Row F) → Result ℤ
  unfolding key_of_position
  net_qty key [] = ok (pos 0)
  net_qty key (p ∷ positions) = elim (key_of_position py p == key) [
    | true ↦ (int_of py p "quantity" >>= λ q. net_qty key positions >>= λ t. ok (q +ℤ t))
    | false ↦ net_qty key positions
  ]

  abbrev size_of : Result ℤ → ℕ
  size_of (ok q) = magnitude q
  size_of (err _) = 0

  -- The sum of the sizes of all the quantities.
  unfoldable pub gross_qty : List (Row F) → ℕ
  gross_qty [] = 0
  gross_qty (p ∷ positions) = size_of (int_of py p "quantity") + gross_qty positions

  -- The quantity of an entry, 0 where there is none.
  abbrev pub qty_of : Option (Row F) → Result ℤ
  qty_of none = ok (pos 0)
  qty_of (some row) = int_of py row "quantity"

  some_whole : (m : Result F) → ((m >>= λ x. ok (some x)) >>= whole_or py) ≡ (m >>= py.whole)
  some_whole (ok x) = refl
  some_whole (err e) = refl

  merged_row_qty :
      (merged : Row F) (total : ℤ) (price : F)
      → int_of py (merged_row py merged total price) "quantity" ≡ through_float py total
  unfolding merged_row int_of field_of to_float
  merged_row_qty merged total price =
      let rest = insert "quantity" (int total) merged in
      rw (lookup-insert "average_price" "quantity" (float price) rest)
        (rw (lookup-insert "quantity" "quantity" (int total) merged) (some_whole (py.of_int total)))

  merge_rows_qty :
      (merged p row : Row F)
      → merge_rows py merged p ≡ ok row
      → (q1 q2 : ℤ) × (int_of py merged "quantity" ≡ ok q1)
        × (int_of py p "quantity" ≡ ok q2)
        × (int_of py row "quantity" ≡ through_float py (q1 +ℤ q2))
  unfolding merge_rows
  merge_rows_qty merged p row h =
      let (q1, e1, h1) = >>=-eq-ok (int_of py merged "quantity") _ h in
      let (q2, e2, h2) = >>=-eq-ok (int_of py p "quantity") _ h1 in
      let (p1, e3, h3) = >>=-eq-ok (float_of py merged "average_price") _ h2 in
      let (p2, e4, h4) = >>=-eq-ok (float_of py p "average_price") _ h3 in
      let (price, e5, h5) = >>=-eq-ok (merged_price py q1 q2 p1 p2) _ h4 in
      (
        q1,
        q2,
        e1,
        e2,
        subst (λ r. int_of py r "quantity" ≡ through_float py (q1 +ℤ q2)) (cc h5)
            (merged_row_qty merged (q1 +ℤ q2) price),
      )

  -- The row that a round puts in the place of an entry.
  abbrev EntryBecomes : Option (Row F) → (p row : Row F) → Type 0
  EntryBecomes entry p row =
      ((entry ≡ none) × (row ≡ p))
      ⊎ ((merged : Row F) × (entry ≡ some merged) × (merge_rows py merged p ≡ ok row))

  -- What a round does to the table.
  abbrev Placed : Row F → (out next : Dict (Row F)) → Type 0
  Placed p out next =
      (row : Row F) × (next ≡ insert (key_of_position py p) row out)
      × EntryBecomes (lookup (key_of_position py p) out) p row

  place_row-Placed :
      (p : Row F) (out next : Dict (Row F)) → place_row py p out ≡ ok next → Placed p out next
  unfolding place_row
  place_row-Placed p out next h = elim (Option-cases (lookup (key_of_position py p) out)) [
    | inl e ↦ (p, cc (rw (e, place_row) at h), inl (e, refl))
    | inr (merged, e) ↦
        let (row, r, h1) = >>=-eq-ok (merge_rows py merged p) _ (rw (e, place_row) at h) in
        (row, cc h1, inr (merged, e, r))
  ]

zero_plus : (n : ℤ) → pos 0 +ℤ n ≡ n
zero_plus n = omega int_laws

plus_zero : (n : ℤ) → n +ℤ pos 0 ≡ n
plus_zero n = omega int_laws

plus_assoc : (a b c : ℤ) → (a +ℤ b) +ℤ c ≡ a +ℤ (b +ℤ c)
plus_assoc a b c = omega int_laws

module _ {F : Type 0} ⦃d : Double F⦄ (py : Conversions F) where
  net_qty-cons :
      (key : String) (p : Row F) (positions : List (Row F)) (q t : ℤ)
      → (key_of_position py p == key) ≡ true
      → int_of py p "quantity" ≡ ok q
      → net_qty py key positions ≡ ok t
      → net_qty py key (p ∷ positions) ≡ ok (q +ℤ t)
  unfolding net_qty
  net_qty-cons key p positions q t same e n = rw (same, net_qty) (rw e (rw n refl))

module _ {F : Type 0} ⦃d : Double F⦄ (py : Conversions F) (bound : ℕ)
    (exact : (n : ℤ) → magnitude n ≤ bound → through_float py n ≡ ok n) where
  -- The quantity of an entry, with the rows to come, stays within the bound.
  abbrev Fits : Option (Row F) → List (Row F) → Type 0
  Fits entry positions =
      (a : ℤ) → qty_of py entry ≡ ok a → magnitude a + gross_qty py positions ≤ bound

  -- What an entry has become: what it was, and the net quantity of the rows.
  abbrev Nets : String → Option (Row F) → List (Row F) → ℤ → Type 0
  Nets key entry positions z =
      (a t : ℤ) × (qty_of py entry ≡ ok a) × (net_qty py key positions ≡ ok t) × (z ≡ a +ℤ t)

  Fits-other :
      (p : Row F) (positions : List (Row F)) (entry : Option (Row F))
      → Fits entry (p ∷ positions)
      → Fits entry positions
  unfolding gross_qty
  Fits-other p positions entry fits a e = omega (arith, fits a e)

  Fits-first :
      (p : Row F) (positions : List (Row F)) → Fits none (p ∷ positions) → Fits (some p) positions
  unfolding gross_qty
  Fits-first p positions fits a e = ground (arith, fits (pos 0) refl)

  Fits-merged :
      (p merged row : Row F) (positions : List (Row F))
      → merge_rows py merged p ≡ ok row
      → Fits (some merged) (p ∷ positions)
      → (q1 q2 : ℤ) × (int_of py merged "quantity" ≡ ok q1)
        × (int_of py p "quantity" ≡ ok q2)
        × (int_of py row "quantity" ≡ ok (q1 +ℤ q2))
        × Fits (some row) positions
  unfolding gross_qty
  Fits-merged p merged row positions m fits =
      let (q1, q2, e1, e2, r) = merge_rows_qty py merged p row m in
      let small : magnitude q1 + (magnitude q2 + gross_qty py positions) ≤ bound =
        subst (λ s. magnitude q1 + (size_of py s + gross_qty py positions) ≤ bound) e2
          (fits q1 e1) in
      let whole_sum = r ∙ exact (q1 +ℤ q2) (omega (arith, small, magnitude-add q1 q2)) in
      (
        q1,
        q2,
        e1,
        e2,
        whole_sum,
        λ a e.
            let same : q1 +ℤ q2 ≡ a = cc in
            subst (λ n. magnitude n + gross_qty py positions ≤ bound) same
              (omega (arith, small, magnitude-add q1 q2)),
      )

  Nets-none :
      (key : String) (p : Row F) (positions : List (Row F)) (z : ℤ)
      → (key_of_position py p == key) ≡ true
      → Nets key (some p) positions z
      → Nets key none (p ∷ positions) z
  Nets-none key p positions z same (a, t, e, n, sum) =
      (pos 0, a +ℤ t, refl, net_qty-cons py key p positions a t same e n, sum ∙ sym (zero_plus _))

  Nets-merged :
      (key : String) (p merged row : Row F) (positions : List (Row F)) (z q1 q2 : ℤ)
      → (key_of_position py p == key) ≡ true
      → int_of py merged "quantity" ≡ ok q1
      → int_of py p "quantity" ≡ ok q2
      → int_of py row "quantity" ≡ ok (q1 +ℤ q2)
      → Nets key (some row) positions z
      → Nets key (some merged) (p ∷ positions) z
  Nets-merged key p merged row positions z q1 q2 same e1 e2 r (a, t, e, n, sum) =
      let total : a ≡ q1 +ℤ q2 = cc in
      (
        q1,
        q2 +ℤ t,
        e1,
        net_qty-cons py key p positions q2 t same e2 n,
        sum ∙ ap (λ x. x +ℤ t) total ∙ plus_assoc q1 q2 t,
      )

  Nets-other :
      (key : String) (p : Row F) (entry : Option (Row F)) (positions : List (Row F)) (z : ℤ)
      → (key_of_position py p == key) ≡ false
      → Nets key entry positions z
      → Nets key entry (p ∷ positions) z
  unfolding net_qty
  Nets-other key p entry positions z other (a, t, e, n, sum) = (a, t, e, rw (other, net_qty) n, sum)

  Nets-hit :
      (key : String) (p : Row F) (positions : List (Row F)) (entry : Option (Row F)) (row : Row F)
      (z : ℤ)
      → (key_of_position py p == key) ≡ true
      → EntryBecomes py entry p row
      → Fits entry (p ∷ positions)
      → (Fits (some row) positions → Nets key (some row) positions z)
      → Nets key entry (p ∷ positions) z
  Nets-hit key p positions entry row z hit (inl (e, r)) fits rest =
      let first = Fits-first p positions (subst (λ o. Fits o (p ∷ positions)) e fits) in
      subst (λ o. Nets key o (p ∷ positions) z) (sym e)
        (Nets-none key p positions z hit
          (subst (λ x. Fits (some x) positions → Nets key (some x) positions z) r rest first))
  Nets-hit key p positions entry row z hit (inr (merged, e, m)) fits rest =
      let (q1, q2, e1, e2, r, fits') =
        Fits-merged p merged row positions m (subst (λ o. Fits o (p ∷ positions)) e fits) in
      subst (λ o. Nets key o (p ∷ positions) z) (sym e)
        (Nets-merged key p merged row positions z q1 q2 hit e1 e2 r (rest fits'))

  position_map_from-Nets :
      (key : String) (positions : List (Row F)) (out m : Dict (Row F)) (z : ℤ)
      → position_map_from py out positions ≡ ok m
      → qty_of py (lookup key m) ≡ ok z
      → Fits (lookup key out) positions
      → Nets key (lookup key out) positions z
  unfolding position_map_from net_qty
  position_map_from-Nets key [] out m z h e fits =
      let same : qty_of py (lookup key out) ≡ ok z =
        subst (λ o. qty_of py (lookup key o) ≡ ok z) (cc h) e in
      (z, pos 0, same, refl, sym (plus_zero z))
  position_map_from-Nets key (p ∷ positions) out m z h e fits =
      let (next, placed, h1) = >>=-eq-ok (place_row py p out) _ h in
      let rest = position_map_from-Nets key positions next m z h1 e in
      let (row, table, how) = place_row-Placed py p out next placed in
      let found : lookup key next
          ≡ (if key_of_position py p == key then some row else lookup key out) =
        ap (lookup key) table ∙ lookup-insert (key_of_position py p) key row out in
      elim (Bool-cases (key_of_position py p == key)) [
        | inr other ↦
            let same : lookup key next ≡ lookup key out = rw other at found in
            Nets-other key p (lookup key out) positions z other (
              subst (λ o. Nets key o positions z) same
                (rest (
                  subst (λ o. Fits o positions) (sym same)
                    (Fits-other p positions (lookup key out) fits))))
        | inl hit ↦
            let same : lookup key next ≡ some row = rw hit at found in
            let here : key_of_position py p ≡ key = (eq_iff (key_of_position py p) key).0 hit in
            Nets-hit key p positions (lookup key out) row z hit
              (subst (λ k. EntryBecomes py (lookup k out) p row) here how) fits
              (subst (λ o. Fits o positions → Nets key o positions z) same rest)
      ]

  -- The quantity that the table has under a key is the net quantity of its rows.
  pub position_map-net :
      (key : String) (positions : List (Row F)) (m : Dict (Row F)) (z : ℤ)
      → gross_qty py positions ≤ bound
      → position_map py positions ≡ ok m
      → qty_of py (lookup key m) ≡ ok z
      → net_qty py key positions ≡ ok z
  unfolding position_map lookup
  position_map-net key positions m z small h e =
      let (a, t, zero_now, n, sum) =
        position_map_from-Nets key positions [] m z h e (λ a none_now. ground arith) in
      let start : pos 0 ≡ a = cc in
      n ∙ ap (λ x. ok x) (sym (sum ∙ ap (λ x. x +ℤ t) (sym start) ∙ zero_plus t))
