-- ===== src/Lifecycle/Fills.antt =====
-- Fill messages for one order, applied one after the other by `apply_fill` of lifecycle.py. A message
-- that raises changes nothing.
use algo_dollar.Base.{
  String, ◌≡◌, refl, Bool, true, ◌||◌, not, ◌⊎◌, inl, inr, List, [], ◌∷◌, ◌++◌, ℤ, pos, ◌+ℤ◌, ◌≤ℤ◌,
  ltb_ℤ, leb_ℤ, +ℤ_parts, All, if◌then◌else◌, arith,
}
use algo_dollar.Base.Member.{contains, contains-append, contains-append_self}
use algo_dollar.Errors.{Result, ok, err}
use algo_dollar.Double.{Double}
use algo_dollar.Lifecycle.Record.{OrderRecord, apply_fill}

pub record FillMessage (F : Type 0) : Type 0 where
  pub qty : ℤ
  pub price : F
  pub fill_id : String

-- Between nothing and the whole order is filled.
pub record IsBounded {F : Type 0} (r : OrderRecord F) : Type 0 where
  pub some_filled : pos 0 ≤ℤ r.filled_qty
  pub within_order : r.filled_qty ≤ℤ r.qty

-- `x in xs`, as a statement.
abbrev pub In : {A : Type 0} → A → List A → Type 0
In x [] = ⊥
In x (y ∷ ys) = (x ≡ y) ⊎ In x ys

module _ {F : Type 0} ⦃d : Double F⦄ where
  abbrev pub record_after : OrderRecord F → Result (OrderRecord F × Bool) → OrderRecord F
  record_after r (ok (r', _)) = r'
  record_after r (err _) = r

  unfoldable pub deliver : OrderRecord F → FillMessage F → OrderRecord F
  deliver r m = record_after r (apply_fill r m.qty m.price m.fill_id)

  unfoldable pub deliver_all : List (FillMessage F) → OrderRecord F → OrderRecord F
  deliver_all [] r = r
  deliver_all (m ∷ ms) r = deliver_all ms (deliver r m)

  -- The message is known already, invalid, or more than the order has left.
  settled : OrderRecord F → FillMessage F → Bool
  settled r m =
      contains m.fill_id r.applied_fill_ids
      || ((leb_ℤ m.qty (pos 0) || not (d.is_finite m.price)) || ltb_ℤ r.qty (r.filled_qty +ℤ m.qty))

  -- What `apply_fill` does on each branch: a known fill changes nothing, an invalid one or one that
  -- is too large raises, and any other adds its quantity and its id.
  pub apply_fill_outcome :
      (r : OrderRecord F) (qty : ℤ) (price : F) (fill_id : String) {s : OrderRecord F} {new : Bool}
      → apply_fill r qty price fill_id ≡ ok (s, new)
      → (new ≡ not (contains fill_id r.applied_fill_ids))
        × (s.qty ≡ r.qty)
        × (s.filled_qty ≡ (if new then r.filled_qty +ℤ qty else r.filled_qty))
        × (s.applied_fill_ids
            ≡ (if new then r.applied_fill_ids ++ fill_id ∷ [] else r.applied_fill_ids))
        × (new ≡ true → ltb_ℤ (pos 0) qty ≡ true)
        × (new ≡ true → s.filled_qty ≤ℤ r.qty)
  unfolding apply_fill
  apply_fill_outcome r qty price fill_id h = ground arith

  settled_unchanged : (r : OrderRecord F) (m : FillMessage F) → settled r m ≡ true → deliver r m ≡ r
  unfolding settled deliver apply_fill
  settled_unchanged r m h = ground arith

  pub deliver-IsBounded :
      (r : OrderRecord F) (m : FillMessage F) → IsBounded r → IsBounded (deliver r m)
  unfolding deliver apply_fill
  deliver-IsBounded r m v = ground (arith, +ℤ_parts r.filled_qty m.qty)

  deliver-settled : (r : OrderRecord F) (m : FillMessage F) → settled (deliver r m) m ≡ true
  unfolding settled deliver apply_fill
  deliver-settled r m = ground (arith, contains-append_self m.fill_id r.applied_fill_ids)

  deliver_keeps_settled :
      (r : OrderRecord F) (m n : FillMessage F)
      → settled r m ≡ true
      → settled (deliver r n) m ≡ true
  unfolding settled deliver apply_fill
  deliver_keeps_settled r m n h = ground (
    arith,
    contains-append m.fill_id r.applied_fill_ids (n.fill_id ∷ []),
    +ℤ_parts r.filled_qty n.qty,
    +ℤ_parts r.filled_qty m.qty,
    +ℤ_parts (r.filled_qty +ℤ n.qty) m.qty,
  )

  deliver_all_keeps_settled :
      (ms : List (FillMessage F)) (r : OrderRecord F) (m : FillMessage F)
      → settled r m ≡ true
      → settled (deliver_all ms r) m ≡ true
  unfolding deliver_all
  deliver_all_keeps_settled [] r m h = h
  deliver_all_keeps_settled (n ∷ ms) r m h =
      deliver_all_keeps_settled ms (deliver r n) m (deliver_keeps_settled r m n h)

  deliver_all-settled :
      (ms : List (FillMessage F)) (r : OrderRecord F) (m : FillMessage F)
      → In m ms
      → settled (deliver_all ms r) m ≡ true
  unfolding deliver_all
  deliver_all-settled [] r m i = absurd i
  deliver_all-settled (n ∷ ms) r m (inl e) =
      rw e (deliver_all_keeps_settled ms (deliver r n) n (deliver-settled r n))
  deliver_all-settled (n ∷ ms) r m (inr i) = deliver_all-settled ms (deliver r n) m i

  -- Fills that come again, in any order and as often as they like, change nothing.
  pub deliver_all_again :
      (ms ns : List (FillMessage F)) (r : OrderRecord F)
      → All (λ n. In n ms) ns
      → deliver_all ns (deliver_all ms r) ≡ deliver_all ms r
  unfolding deliver_all
  deliver_all_again ms [] r known = refl
  deliver_all_again ms (n ∷ ns) r (known, rest) =
      rw (settled_unchanged (deliver_all ms r) n (deliver_all-settled ms r n known))
        (deliver_all_again ms ns r rest)

  -- From a filled quantity between zero and the order's, no sequence of fill messages takes it out of
  -- these bounds.
  pub deliver_all-IsBounded :
      (ms : List (FillMessage F)) (r : OrderRecord F) → IsBounded r → IsBounded (deliver_all ms r)
  unfolding deliver_all
  deliver_all-IsBounded [] r v = v
  deliver_all-IsBounded (m ∷ ms) r v =
      deliver_all-IsBounded ms (deliver r m) (deliver-IsBounded r m v)
