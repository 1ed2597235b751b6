-- ===== src/Lifecycle/Record.antt =====
-- `OrderRecord` of lifecycle.py. The time stamps `created_at`, `updated_at` and `at` are left out:
-- nothing reads them. A mutating method returns the new record.
use algo_dollar.Base.{
  String, ◌<>◌, ◌≡◌, Bool, true, false, ◌||◌, not, Option, none, some, List, [], ◌∷◌, ◌++◌, ℤ, pos,
  ◌+ℤ◌, ◌-ℤ◌, ltb_ℤ, leb_ℤ, max_ℤ, eq_ℤ, is_nonempty, if◌then◌else◌, arith,
}
use algo_dollar.Base.Member.{contains}
use algo_dollar.Errors.{Result, ok, err, ◌>>◌, value_error}
use algo_dollar.Double.{Double, nought}
use algo_dollar.Lifecycle.States.{OrderState, unknown, value, of_value, of_value-value}
use algo_dollar.Lifecycle.Transitions.{assert_transition}

-- The breakdown that `calculate_costs` returns.
pub record Costs (F : Type 0) : Type 0 where
  pub brokerage : F
  pub stt : F
  pub exchange_charges : F
  pub sebi : F
  pub gst : F
  pub stamp_duty : F
  pub total : F

-- The three kinds of dict that are appended to `history`.
pub data HistoryEntry (F : Type 0) : Type 0 where
  moved : (from to : OrderState) (reason : String) (reconciled : Bool) → HistoryEntry F
  costed : Costs F → HistoryEntry F
  refused : List String → HistoryEntry F

pub record OrderRecord (F : Type 0) : Type 0 where
  pub client_order_id : String
  pub symbol : String
  pub exchange : String
  pub side : String
  pub qty : ℤ
  pub order_type : String
  pub product : String
  pub strategy : String
  pub limit_price : F
  pub trigger_price : F
  pub reference_price : F
  pub state : OrderState
  pub broker_order_id : Option String
  pub filled_qty : ℤ
  pub avg_fill_price : F
  pub reason : String
  pub intent_kind : String
  pub history : List (HistoryEntry F)
  pub applied_fill_ids : List String

module _ {F : Type 0} where
  -- The body of `transition` after its check.
  unfoldable pub moved_to : OrderRecord F → OrderState → String → Bool → OrderRecord F
  moved_to r new_state reason reconciled = record r {
    history = r.history ++ moved r.state new_state reason reconciled ∷ [];
    state = new_state;
    reason = if is_nonempty reason then reason else r.reason;
  }

  unfoldable pub transition : OrderRecord F → OrderState → String → Bool → Result (OrderRecord F)
  transition r new_state reason reconciled =
      assert_transition r.state new_state reconciled >> ok (moved_to r new_state reason reconciled)

  -- A transition that returns was legal, and changes the state, the history and the reason alone.
  pub transition_moved :
      (r : OrderRecord F) (s : OrderState) (reason : String) (reconciled : Bool) (q : OrderRecord F)
      → transition r s reason reconciled ≡ ok q
      → (assert_transition r.state s reconciled ≡ ok tt) × (q ≡ moved_to r s reason reconciled)
  unfolding transition
  transition_moved r s reason reconciled q h = ground arith

  pub transition_fields :
      (r : OrderRecord F) (s : OrderState) (reason : String) (reconciled : Bool) (q : OrderRecord F)
      → transition r s reason reconciled ≡ ok q
      → (q.state ≡ s) × (q.client_order_id ≡ r.client_order_id)
  unfolding transition moved_to
  transition_fields r s reason reconciled q h = ground arith

  -- `remaining_qty`
  unfoldable pub remaining_qty : OrderRecord F → ℤ
  remaining_qty r = max_ℤ (pos 0) (r.qty -ℤ r.filled_qty)

module _ {F : Type 0} ⦃d : Double F⦄ where
  -- `apply_fill`: the record with whether the fill was new.
  unfoldable pub apply_fill :
      OrderRecord F → (qty : ℤ) (price : F) (fill_id : String) → Result (OrderRecord F × Bool)
  apply_fill r qty price fill_id =
      if contains fill_id r.applied_fill_ids
      then ok (r, false)
      else if leb_ℤ qty (pos 0) || not (d.is_finite price)
      then err (value_error "Invalid fill")
      else (let new_total = r.filled_qty +ℤ qty in
          if ltb_ℤ r.qty new_total
          then err (value_error ("Fill would over-fill order " <> r.client_order_id))
          else (let notional =
                d.add (d.mul r.avg_fill_price (d.of_ℤ r.filled_qty)) (d.mul price (d.of_ℤ qty)) in
              ok (
                record r {
                  filled_qty = new_total;
                  avg_fill_price =
                      if eq_ℤ new_total (pos 0) then nought else d.div notional (d.of_ℤ new_total);
                  applied_fill_ids = r.applied_fill_ids ++ fill_id ∷ [];
                },
                true,
              )))

-- `data.get("state", OrderState.UNKNOWN.value)`
abbrev pub state_text_or_unknown : Option String → String
state_text_or_unknown none = value unknown
state_text_or_unknown (some v) = v

-- `to_dict`: the fields, with the state as its text. A stored dict may lack the state.
pub record OrderDict (F : Type 0) : Type 0 where
  pub fields : OrderRecord F
  pub state_text : Option String

module _ {F : Type 0} where
  unfoldable pub to_dict : OrderRecord F → OrderDict F
  to_dict r = record { fields = r; state_text = some (value r.state) }

  -- `from_dict`: raises `ValueError` on a text that names no state.
  unfoldable pub from_dict : OrderDict F → Result (OrderRecord F)
  from_dict o = elim (of_value (state_text_or_unknown o.state_text)) [
    | none ↦ err (value_error "not a valid OrderState")
    | some s ↦ ok (record (o.fields) { state = s })
  ]

  -- A record that was written is read back as it was.
  pub from_dict-to_dict : (r : OrderRecord F) → from_dict (to_dict r) ≡ ok r
  unfolding from_dict to_dict
  from_dict-to_dict r = rw (of_value-value r.state, from_dict)

  -- A stored record without a state is read as UNKNOWN, which blocks it.
  pub from_dict_no_state :
      (r : OrderRecord F)
      → from_dict (record { fields = r; state_text = none }) ≡ ok (record r { state = unknown })
  unfolding from_dict
  from_dict_no_state r = rw (of_value-value unknown, from_dict)
