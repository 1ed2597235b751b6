-- ===== src/Lifecycle/BrokerStatus.antt =====
-- `_BROKER_STATUS_MAP` and `map_broker_status` of lifecycle.py. A status that is no text is `none`.
use algo_dollar.Base.{
  ℕ, String, ◌≡◌, refl, Bool, true, false, ◌&&◌, ◌↔◌, Option, none, some, List, [], ◌∷◌, ℤ, pos,
  ltb_ℤ, ◌<ℤ◌, codes, codes_eq, codes_eq-eq, codes_eq_refl, strip, upper, if◌then◌else◌, arith,
  Option-cases, inl, inr, ◌≢◌,
}
use algo_dollar.Lifecycle.States.{
  OrderState, submitted, acknowledged, partially_filled, filled, cancel_pending, cancelled,
  rejected, expired, unknown, state_eq,
}

-- `_BROKER_STATUS_MAP`
abbrev pub broker_status_map : List (String × OrderState)
broker_status_map =
    ("COMPLETE", filled)
    ∷ ("CANCELLED", cancelled)
    ∷ ("REJECTED", rejected)
    ∷ ("OPEN", acknowledged)
    ∷ ("TRIGGER PENDING", acknowledged)
    ∷ ("AMO REQ RECEIVED", acknowledged)
    ∷ ("VALIDATION PENDING", submitted)
    ∷ ("PUT ORDER REQ RECEIVED", submitted)
    ∷ ("OPEN PENDING", submitted)
    ∷ ("MODIFY PENDING", acknowledged)
    ∷ ("CANCEL PENDING", cancel_pending)
    ∷ ("EXPIRED", expired)
    ∷ ("PARTIAL", partially_filled)
    ∷ ("PARTIALLY FILLED", partially_filled)
    ∷ ("PARTIALLY_FILLED", partially_filled)
    ∷ []

find_status : List ℕ → List (String × OrderState) → Option OrderState
find_status cs [] = none
find_status cs ((name, s) ∷ rest) = if codes_eq (codes name) cs then some s else find_status cs rest

-- `_BROKER_STATUS_MAP.get(status.strip().upper())`; the lookup of a blank status fails as well.
pub known_status : String → Option OrderState
unfolding find_status
known_status status = find_status (upper (strip (codes status))) broker_status_map

-- The two corrections by quantity, of a state that the map knows.
abbrev pub correct_by_quantity : OrderState → ℤ → ℤ → OrderState
correct_by_quantity state filled_qty order_qty =
    if state_eq state acknowledged && ltb_ℤ (pos 0) filled_qty
    then partially_filled
    else if state_eq state filled
        && (ltb_ℤ (pos 0) order_qty && (ltb_ℤ (pos 0) filled_qty && ltb_ℤ filled_qty order_qty))
    then partially_filled
    else state

abbrev is_blank_text : List ℕ → Bool
is_blank_text [] = true
is_blank_text (_ ∷ _) = false

unfoldable pub map_broker_status : Option String → ℤ → ℤ → OrderState
map_broker_status none filled_qty order_qty = unknown
map_broker_status (some status) filled_qty order_qty =
    if is_blank_text (strip (codes status)) then unknown else elim (known_status status) [
      | none ↦ unknown
      | some state ↦ correct_by_quantity state filled_qty order_qty
    ]

known_status_cases :
    (status : String)
    → ((known_status status ≡ some filled) ↔ (upper (strip (codes status)) ≡ codes "COMPLETE"))
      × (known_status status ≢ some unknown)
unfolding known_status
known_status_cases status =
    let cs = upper (strip (codes status)) in
    (
      (
        ground (arith, codes_eq-eq (codes "COMPLETE") cs),
        λ e. rw e (rw (codes_eq_refl (codes "COMPLETE"), find_status)),
      ),
      ground arith,
    )

correct_by_quantity_filled :
    (s : OrderState) (f q : ℤ)
    → (correct_by_quantity s f q ≡ filled)
      ↔ ((s ≡ filled) × ¬ ((pos 0 <ℤ q) × (pos 0 <ℤ f) × (f <ℤ q)))
correct_by_quantity_filled filled f q = ground arith
correct_by_quantity_filled _ f q = ground arith

correct_by_quantity_unknown :
    (s : OrderState) (f q : ℤ) → s ≢ unknown → correct_by_quantity s f q ≢ unknown
correct_by_quantity_unknown unknown f q h = ground arith
correct_by_quantity_unknown _ f q h = ground arith

blank_unknown :
    (status : String) → is_blank_text (strip (codes status)) ≡ true → known_status status ≡ none
unfolding known_status upper codes_eq
blank_unknown status h = go (strip (codes status)) h
  where
    go : (cs : List ℕ) → is_blank_text cs ≡ true → find_status (upper cs) broker_status_map ≡ none
    go [] h = refl
    go (c ∷ cs) h = ground arith

complete_nonblank : (cs : List ℕ) → upper cs ≡ codes "COMPLETE" → is_blank_text cs ≡ false
unfolding upper
complete_nonblank [] h = ground arith
complete_nonblank (c ∷ cs) h = refl

-- A broker status reads as FILLED exactly when it is COMPLETE, up to blanks around it and case, and
-- the reported quantity is not a positive number short of a positive order quantity.
pub map_broker_status_filled :
    (status : String) (filled_qty order_qty : ℤ)
    → (map_broker_status (some status) filled_qty order_qty ≡ filled) ↔ (
        (upper (strip (codes status)) ≡ codes "COMPLETE")
        × ¬ ((pos 0 <ℤ order_qty) × (pos 0 <ℤ filled_qty) × (filled_qty <ℤ order_qty)))
unfolding map_broker_status
map_broker_status_filled status f q = elim (Option-cases (known_status status)) [
  | inl e ↦ ground (arith, known_status_cases status)
  | inr (s, e) ↦ ground (
    arith,
    known_status_cases status,
    correct_by_quantity_filled s f q,
    blank_unknown status,
    complete_nonblank (strip (codes status)),
  )
]

-- A status is read as UNKNOWN exactly when the vocabulary does not hold it: no known status blocks.
map_broker_status_unknown :
    (status : String) (filled_qty order_qty : ℤ)
    → (map_broker_status (some status) filled_qty order_qty ≡ unknown)
      ↔ (known_status status ≡ none)
unfolding map_broker_status
map_broker_status_unknown status f q = elim (Option-cases (known_status status)) [
  | inl e ↦ ground (arith, known_status_cases status)
  | inr (s, e) ↦
      ground
        (arith, known_status_cases status, correct_by_quantity_unknown s f q, blank_unknown status)
]
