-- ===== src/Lifecycle/Store/Laws.antt =====
-- What the order store of lifecycle.py promises: one claim for an id, and reads that see writes.
use algo_dollar.Base.{
  String, ◌==◌, eq_refl, ◌≡◌, ◌∙◌, ap, Bool, true, false, not, Option, none, some, List, [], ◌∷◌,
  inl, inr, if◌then◌else◌, arith, Option-cases, keep_if,
}
use algo_dollar.Base.Dict.{lookup, insert, values, lookup-insert}
use algo_dollar.Errors.{ok, is_ok, Result-cases}
use algo_dollar.Lifecycle.States.{is_terminal}
use algo_dollar.Lifecycle.Record.{OrderRecord, OrderDict, to_dict, from_dict-to_dict}
use algo_dollar.Lifecycle.Store.{
  MemoryStore, reserve, get, save, list_open, list_all, decode_open, decode_all,
}

module _ {F : Type 0} where
  -- Whether an id is claimed.
  abbrev pub has_record : Option (OrderDict F) → Bool
  has_record none = false
  has_record (some _) = true

  unfoldable pub is_reserved : String → MemoryStore F → Bool
  is_reserved cid s = has_record (lookup cid s.records)

  -- A reservation succeeds exactly if the id is unclaimed. It then claims the id, so that a second
  -- one, of any record with the id, is refused and changes nothing; and the record is read back.
  pub reserve_once :
      (r : OrderRecord F) (s : MemoryStore F)
      → let (won, t) = reserve r s in
        (won ≡ not (is_reserved r.client_order_id s))
        × (won ≡ true → get r.client_order_id t ≡ ok (some r))
        × (won ≡ false → t ≡ s)
        × ((q : OrderRecord F) → q.client_order_id ≡ r.client_order_id → reserve q t ≡ (false, t))
  unfolding reserve get is_reserved
  reserve_once r s =
      let cid = r.client_order_id in
      elim (Option-cases (lookup cid s.records)) [
        | inl e ↦
            let found : lookup cid (insert cid (to_dict r) s.records) ≡ some (to_dict r) =
              lookup-insert cid cid (to_dict r) s.records
              ∙ ap (λ b. if b then some (to_dict r) else lookup cid s.records) (eq_refl cid) in
            (
              ground arith,
              ground (arith, found, from_dict-to_dict r),
              ground arith,
              λ q same. ground (arith, found),
            )
        | inr (o, e) ↦ (ground arith, ground arith, ground arith, λ q same. ground arith)
      ]

  -- After a write that succeeds, the record is read back under its id, and any other id reads as
  -- before.
  pub get-save :
      (r : OrderRecord F) (s : MemoryStore F) {t : MemoryStore F} (cid : String)
      → save r s ≡ ok t
      → get cid t ≡ (if r.client_order_id == cid then ok (some r) else get cid s)
  unfolding save get
  get-save r s {t} cid h =
      ground (arith, lookup-insert r.client_order_id cid (to_dict r) s.records, from_dict-to_dict r)

  -- `save` raises exactly for an id that was never reserved.
  pub save_reserved :
      (r : OrderRecord F) (s : MemoryStore F) → is_ok (save r s) ≡ is_reserved r.client_order_id s
  unfolding save is_reserved
  save_reserved r s = ground arith

  decode_open-decode_all :
      (os : List (OrderDict F)) (rs : List (OrderRecord F))
      → decode_all os ≡ ok rs
      → decode_open os ≡ ok (keep_if (λ r. not (is_terminal r.state)) rs)
  unfolding decode_all decode_open
  decode_open-decode_all [] rs h = ground arith
  decode_open-decode_all (o ∷ os) rs h = elim (Result-cases (decode_all os)) [
    | inl (rest, e) ↦ ground (arith, decode_open-decode_all os rest e)
    | inr (x, e) ↦ ground arith
  ]

  -- `list_open` gives, in order, just those of all the records whose state is not terminal.
  list_open_lem :
      (s : MemoryStore F) {rs : List (OrderRecord F)}
      → list_all s ≡ ok rs
      → list_open s ≡ ok (keep_if (λ r. not (is_terminal r.state)) rs)
  unfolding list_all list_open
  list_open_lem s {rs} h = decode_open-decode_all (values s.records) rs h
