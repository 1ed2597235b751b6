-- ===== src/Safety/Duplicates.antt =====
-- `check_duplicate_order` of safety.py.
use algo_dollar.Base.{
  String, ◌==◌, eq_iff, starts_with, take_text, is_nonempty, ◌≡◌, ◌↔◌, refl, Bool, true, false,
  ◌&&◌, Option, none, some, List, [], ◌∷◌, All, arith,
}
use algo_dollar.Base.Member.{contains}
use algo_dollar.Errors.{Result, ok, err, ◌>>◌, raise_if, safety_check, >>-eq-ok}
use algo_dollar.Lifecycle.Tags.{strategy_tag_prefix, strategy_prefix_len}

-- An entry of `open_orders`: a dict, whose texts may be missing or `None`, or something else.
pub data OpenOrder : Type 0 where
  malformed : OpenOrder
  order : (symbol tag status : Option String) → OpenOrder

abbrev pub live_statuses : List String
live_statuses =
    "OPEN" ∷ "TRIGGER PENDING" ∷ "AMO REQ RECEIVED" ∷ "OPEN PENDING" ∷ "VALIDATION PENDING"
    ∷ "MODIFY PENDING" ∷ "TRIGGER PENDING" ∷ []

-- `x or ""`
abbrev pub text_or_empty : Option String → String
text_or_empty none = ""
text_or_empty (some s) = s

abbrev pub is_text : Option String → String → Bool
is_text none s = false
is_text (some t) s = t == s

-- `client_order_id and tag == client_order_id`
abbrev pub is_own_tag : Option String → String → Bool
is_own_tag none tag = false
is_own_tag (some cid) tag = is_nonempty cid && tag == cid

unfoldable pub check_open_order :
    (symbol strategy : String) (cid : Option String) → OpenOrder → Result (Unit {0})
check_open_order symbol strategy cid malformed = err (safety_check "Malformed open order entry")
check_open_order symbol strategy cid (order osymbol otag ostatus) =
    let tag = text_or_empty otag in
    raise_if (is_own_tag cid tag) (safety_check "Order is already live at the broker.")
    >> raise_if
        (is_text osymbol symbol
          && (starts_with (take_text strategy_prefix_len tag) (strategy_tag_prefix strategy)
              && contains (text_or_empty ostatus) live_statuses))
        (safety_check "Duplicate order detected")

unfoldable pub check_duplicate_order :
    (symbol strategy : String) → List OpenOrder → Option String → Result (Unit {0})
unfolding check_open_order
check_duplicate_order symbol strategy [] cid = ok tt
check_duplicate_order symbol strategy (o ∷ os) cid =
    check_open_order symbol strategy cid o >> check_duplicate_order symbol strategy os cid

-- The order does not stand in the way: it is a dict with another tag, and if it is live, then in
-- another instrument or of another strategy.
abbrev pub IsClear : (symbol strategy : String) → Option String → OpenOrder → Type 0
IsClear symbol strategy cid malformed = ⊥
IsClear symbol strategy cid (order osymbol otag ostatus) =
    (is_own_tag cid (text_or_empty otag) ≡ false)
    × (osymbol ≡ some symbol
        → contains (text_or_empty ostatus) live_statuses ≡ true
        → starts_with (take_text strategy_prefix_len (text_or_empty otag))
            (strategy_tag_prefix strategy)
          ≡ false)

check_open_order_iff :
    (symbol strategy : String) (cid : Option String) (o : OpenOrder)
    → (check_open_order symbol strategy cid o ≡ ok tt) ↔ IsClear symbol strategy cid o
unfolding check_open_order
check_open_order_iff symbol strategy cid malformed = ground arith
check_open_order_iff symbol strategy cid (order none otag ostatus) = ground arith
check_open_order_iff symbol strategy cid (order (some t) otag ostatus) =
    ground (arith, eq_iff t symbol)

-- The gate passes exactly if every open order is a dict, has another tag than the new order, and, if
-- it is live and of the same symbol, does not carry the prefix of the new order's strategy.
pub check_duplicate_order_iff :
    (symbol strategy : String) (os : List OpenOrder) (cid : Option String)
    → (check_duplicate_order symbol strategy os cid ≡ ok tt) ↔ All (IsClear symbol strategy cid) os
unfolding check_duplicate_order
check_duplicate_order_iff symbol strategy [] cid = (λ _. tt, λ _. refl)
check_duplicate_order_iff symbol strategy (o ∷ os) cid =
    let one = check_open_order_iff symbol strategy cid o in
    let rest = check_duplicate_order_iff symbol strategy os cid in
    (
      λ h.
          let (first, others) = >>-eq-ok (check_open_order symbol strategy cid o) _ h in
          (one.0 first, rest.0 others),
      λ (first, others). rw (one.1 first) (rest.1 others),
    )
