-- ===== src/Lifecycle/Store/Positions.antt =====
-- Positions under any sequence of fills: `apply_position_delta` of lifecycle.py.
use algo_dollar.Base.{
  String, ◌==◌, eq_iff, ◌≡◌, refl, List, [], ◌∷◌, ℤ, pos, ◌+ℤ◌, int_laws, if◌then◌else◌, arith,
  Bool-cases, inl, inr,
}
use algo_dollar.Base.Dict.{lookup, lookup-insert}
use algo_dollar.Double.{Double, nought}
use algo_dollar.Lifecycle.Store.{
  MemoryStore, Position, position_key, position_or, no_position, shift_position, get_position,
  apply_position_delta,
}

pub record Delta (F : Type 0) : Type 0 where
  pub symbol : String
  pub exchange : String
  pub product : String
  pub change : ℤ
  pub price : F

module _ {F : Type 0} where
  abbrev pub delta_key : Delta F → String
  delta_key e = position_key e.symbol e.exchange e.product

  -- The changes of one position, added up.
  abbrev pub net_change : String → List (Delta F) → ℤ
  net_change key [] = pos 0
  net_change key (e ∷ es) =
      let rest = net_change key es in if delta_key e == key then e.change +ℤ rest else rest

module _ {F : Type 0} ⦃d : Double F⦄ where
  unfoldable pub apply_deltas : List (Delta F) → MemoryStore F → MemoryStore F
  apply_deltas [] s = s
  apply_deltas (e ∷ es) s =
      apply_deltas es (apply_position_delta e.symbol e.exchange e.product e.change e.price s).1

  get_position-apply :
      (e : Delta F) (symbol exchange product : String) (s : MemoryStore F)
      → let key = position_key symbol exchange product in
        let t = (apply_position_delta e.symbol e.exchange e.product e.change e.price s).1 in
        (get_position symbol exchange product t).quantity ≡ (
          if delta_key e == key
          then (get_position symbol exchange product s).quantity +ℤ e.change
          else (get_position symbol exchange product s).quantity)
  unfolding apply_position_delta get_position shift_position no_position
  get_position-apply e symbol exchange product s =
      let key = position_key symbol exchange product in
      ground (
        arith,
        lookup-insert (delta_key e) key
            (shift_position
              (position_or (lookup (delta_key e) s.positions)
                (no_position e.symbol e.exchange e.product))
              e.change e.price)
            s.positions,
        eq_iff (delta_key e) key,
      )

  -- After any fills, in any order and over any instruments, the quantity of a position is what it
  -- was plus the net change of the fills with its key; the others do not touch it.
  pub apply_deltas-quantity :
      (es : List (Delta F)) (symbol exchange product : String) (s : MemoryStore F)
      → (get_position symbol exchange product (apply_deltas es s)).quantity
        ≡ (get_position symbol exchange product s).quantity
          +ℤ net_change (position_key symbol exchange product) es
  unfolding apply_deltas
  apply_deltas-quantity [] symbol exchange product s = omega int_laws
  apply_deltas-quantity (e ∷ es) symbol exchange product s =
      let t = (apply_position_delta e.symbol e.exchange e.product e.change e.price s).1 in
      rw (apply_deltas-quantity es symbol exchange product t) (
        rw (get_position-apply e symbol exchange product s)
          (elim (Bool-cases (delta_key e == position_key symbol exchange product)) [
            | inl same ↦ rw same (omega int_laws)
            | inr other ↦ rw other refl
          ]))

  -- A position that a change closes has no average price left.
  pub closed_position :
      (p : Position F) (change : ℤ) (price : F)
      → (shift_position p change price).quantity ≡ pos 0
      → (shift_position p change price).average_price ≡ nought
  unfolding shift_position
  closed_position p change price h = ground arith
