-- ===== src/Lifecycle/Store.antt =====
-- `InMemoryOrderStore` of lifecycle.py. It keeps each record as its JSON text; here the text is the
-- dict that it encodes, so that a read still decodes the state and may raise.
pub mod Laws
pub mod Positions
use algo_dollar.Base.{
  String, ◌<>◌, ◌==◌, Bool, true, false, not, ◌&&◌, Option, none, some, List, [], ◌∷◌, ◌++◌, ℤ, pos,
  ◌+ℤ◌, leb_ℤ, ltb_ℤ, eq_ℤ, is_nonempty, if◌then◌else◌,
}
use algo_dollar.Base.Dict.{Dict, lookup, insert, values}
use algo_dollar.Base.Member.{contains}
use algo_dollar.Errors.{Result, ok, err, ◌>>=◌, value_error, persistence}
use algo_dollar.Double.{Double, nought}
use algo_dollar.Lifecycle.States.{is_terminal}
use algo_dollar.Lifecycle.Record.{OrderRecord, OrderDict, to_dict, from_dict}

-- The dict of a fill message; a text that may be absent is an option.
pub record FillData (F : Type 0) : Type 0 where
  pub qty : ℤ
  pub price : F
  pub txn_type : Option String
  pub product : Option String
  pub exchange : Option String
  pub symbol : Option String
  pub fill_id : Option String
  pub trade_id : String
  pub timestamp : String
  pub fill_time : String

pub record Position (F : Type 0) : Type 0 where
  pub symbol : String
  pub exchange : String
  pub product : String
  pub quantity : ℤ
  pub average_price : F

pub record MemoryStore (F : Type 0) : Type 0 where
  pub records : Dict (OrderDict F)
  pub trades : Dict (List (FillData F))
  pub trade_ids : List String
  pub positions : Dict (Position F)

abbrev pub or_empty {ℓ} : {A : Type ℓ} → Option (List A) → List A
or_empty none = []
or_empty (some xs) = xs

abbrev pub text_or : Option String → String → String
text_or none d = d
text_or (some s) d = s

-- `_position_key`
unfoldable pub position_key : String → String → String → String
position_key symbol exchange product = exchange <> (":" <> (symbol <> (":" <> product)))

module _ {F : Type 0} where
  unfoldable pub empty_store : MemoryStore F
  empty_store = record { records = []; trades = []; trade_ids = []; positions = [] }

  -- `reserve`: the record is written exactly if its id is unclaimed.
  unfoldable pub reserve : OrderRecord F → MemoryStore F → Bool × MemoryStore F
  reserve r s = elim (lookup r.client_order_id s.records) [
    | some _ ↦ (false, s)
    | none ↦ (true, record s { records = insert r.client_order_id (to_dict r) s.records })
  ]

  unfoldable pub get : String → MemoryStore F → Result (Option (OrderRecord F))
  get cid s = elim (lookup cid s.records) [
    | none ↦ ok none
    | some o ↦ (from_dict o >>= λ r. ok (some r))
  ]

  -- `save`: raises for an id that was never reserved.
  unfoldable pub save : OrderRecord F → MemoryStore F → Result (MemoryStore F)
  save r s = elim (lookup r.client_order_id s.records) [
    | none ↦ err (persistence ("save() before reserve() for " <> r.client_order_id))
    | some _ ↦ ok (record s { records = insert r.client_order_id (to_dict r) s.records })
  ]

  -- The loop of `list_open`.
  unfoldable pub decode_open : List (OrderDict F) → Result (List (OrderRecord F))
  decode_open [] = ok []
  decode_open (o ∷ os) = from_dict o >>= λ r.
      decode_open os >>= λ rest. ok (if is_terminal r.state then rest else r ∷ rest)

  unfoldable pub list_open : MemoryStore F → Result (List (OrderRecord F))
  list_open s = decode_open (values s.records)

  -- `list_all`
  unfoldable pub decode_all : List (OrderDict F) → Result (List (OrderRecord F))
  decode_all [] = ok []
  decode_all (o ∷ os) = from_dict o >>= λ r. decode_all os >>= λ rest. ok (r ∷ rest)

  unfoldable pub list_all : MemoryStore F → Result (List (OrderRecord F))
  list_all s = decode_all (values s.records)

  -- `record_trade`: false if the fill id was recorded before.
  unfoldable pub record_trade : String → FillData F → MemoryStore F → Result (Bool × MemoryStore F)
  record_trade cid fill s =
      let fill_id = text_or fill.fill_id "" in
      if not (is_nonempty fill_id)
      then err (value_error "fill must carry a fill_id")
      else if contains fill_id s.trade_ids
      then ok (false, s)
      else ok (
        true,
        record s {
          trade_ids = s.trade_ids ++ fill_id ∷ [];
          trades = insert cid (or_empty (lookup cid s.trades) ++ fill ∷ []) s.trades;
        },
      )

  unfoldable pub list_trades : String → MemoryStore F → List (FillData F)
  list_trades cid s = or_empty (lookup cid s.trades)

module _ {F : Type 0} ⦃d : Double F⦄ where
  -- The dict that stands for a position with no entry.
  unfoldable pub no_position : String → String → String → Position F
  no_position symbol exchange product = record {
    symbol = symbol;
    exchange = exchange;
    product = product;
    quantity = pos 0;
    average_price = nought;
  }

  abbrev pub position_or : Option (Position F) → Position F → Position F
  position_or none p = p
  position_or (some p) _ = p

  -- The arithmetic of `apply_position_delta`.
  unfoldable pub shift_position : Position F → ℤ → F → Position F
  shift_position p qty_delta price =
      let new_qty = p.quantity +ℤ qty_delta in
      let average =
        if leb_ℤ (pos 0) p.quantity && ltb_ℤ (pos 0) qty_delta
        then (if eq_ℤ new_qty (pos 0)
            then nought
            else d.div
                (d.add (d.mul p.average_price (d.of_ℤ p.quantity)) (d.mul price (d.of_ℤ qty_delta)))
                (d.of_ℤ new_qty))
        else if eq_ℤ new_qty (pos 0)
        then nought
        else p.average_price in
      record p { average_price = average; quantity = new_qty }

  unfoldable pub get_position : String → String → String → MemoryStore F → Position F
  get_position symbol exchange product s =
      position_or (lookup (position_key symbol exchange product) s.positions)
        (no_position symbol exchange product)

  unfoldable pub apply_position_delta :
      String → String → String → ℤ → F → MemoryStore F → Position F × MemoryStore F
  unfolding get_position
  apply_position_delta symbol exchange product qty_delta price s =
      let p = shift_position (get_position symbol exchange product s) qty_delta price in
      (p, record s { positions = insert (position_key symbol exchange product) p s.positions })
