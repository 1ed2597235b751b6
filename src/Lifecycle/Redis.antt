-- ===== src/Lifecycle/Redis.antt =====
-- `RedisOrderStore` of lifecycle.py, over a Redis client that is a parameter. A value in Redis is the
-- dict that its JSON text encodes. The client has `set` and `get`, as the constructor demands; the
-- expiry that each `set` asks for is the client's affair.
pub mod Keys
pub mod Represents
pub mod Calls
pub mod Simulates
pub mod Trades
pub mod Refines
pub mod Scan
use algo_dollar.Base.{
  String, ◌<>◌, Bool, true, false, not, Option, none, some, List, [], ◌∷◌, ℤ, is_nonempty,
  if◌then◌else◌,
}
use algo_dollar.Errors.{Exn, Result, ok, err, ◌>>=◌, persistence, value_error, other, message}
use algo_dollar.Double.{Double}
use algo_dollar.Lifecycle.States.{is_terminal}
use algo_dollar.Lifecycle.Record.{OrderRecord, OrderDict, to_dict, from_dict}
use algo_dollar.Lifecycle.Store.{
  FillData, Position, text_or, position_key, no_position, shift_position,
}

-- A stored text, by what it encodes. A trade is kept with the id of its order.
pub data Stored (F : Type 0) : Type 0 where
  record_text : OrderDict F → Stored F
  trade_text : String → FillData F → Stored F
  position_text : Position F → Stored F

pub record RedisClient (F K : Type 0) : Type 0 where
  -- `set(key, value, nx=nx, ex=ttl)`, with `bool` of its answer. It may raise, and have written.
  pub set : (nx : Bool) → (key : String) → Stored F → K → Result Bool × K
  pub get : (key : String) → K → Result (Option (Stored F))
  -- A client may lack either of the two; the keys that they give are decoded.
  pub scan_iter : Option ((pattern : String) → K → Result (List String))
  pub keys : Option ((pattern : String) → K → Result (List String))

-- `except Exception as exc: raise PersistenceError(f"{what}: {exc}") from exc`
abbrev pub failed : String → Exn → Exn
failed what e = persistence (what <> (": " <> message e))

abbrev pub as_persistence {ℓ} : {A : Type ℓ} → (what : String) → Result A → Result A
as_persistence what (ok a) = ok a
as_persistence what (err e) = err (failed what e)

-- `except PersistenceError: raise` before it
abbrev pub as_scanned {ℓ} : {A : Type ℓ} → Result A → Result A
as_scanned (err (persistence m)) = err (persistence m)
as_scanned m = as_persistence "order scan failed" m

-- Another kind of text under a key of records has no fields of a record.
abbrev pub read_record : {F : Type 0} → Option (Stored F) → Result (Option (OrderRecord F))
read_record none = ok none
read_record (some (record_text o)) = from_dict o >>= λ r. ok (some r)
read_record (some _) = err (other "not a record")

module _ (namespace : String) where
  -- `_key`
  abbrev pub record_key : String → String
  record_key cid = namespace <> (":rec:" <> cid)

  -- `_trade_key`
  abbrev pub trade_key : String → String
  trade_key fill_id = namespace <> (":fill:" <> fill_id)

  -- `_pos_key`
  abbrev pub redis_position_key : String → String → String → String
  redis_position_key symbol exchange product =
      namespace <> (":pos:" <> position_key symbol exchange product)

abbrev pub done : Result Bool → Result (Unit {0})
done (ok _) = ok tt
done (err e) = err e

module _ {F : Type 0} where
  abbrev pub keep_open : Option (OrderRecord F) → List (OrderRecord F) → List (OrderRecord F)
  keep_open none rest = rest
  keep_open (some r) rest = if is_terminal r.state then rest else r ∷ rest

  -- `json.loads(raw) if raw else {...}`, of a position
  abbrev pub read_position : Option (Stored F) → Position F → Result (Position F)
  read_position none p = ok p
  read_position (some (position_text p)) _ = ok p
  read_position (some _) _ = err (other "not a position")

module _ {F K : Type 0} where
  abbrev pub written_position : Position F → Result Bool × K → Result (Position F) × K
  written_position p (ok _, k) = (ok p, k)
  written_position p (err e, k) = (err (failed "position write failed" e), k)

abbrev pub no_scan : String
no_scan =
    "redis client supports neither scan_iter nor keys; cannot recover open orders after a restart."

module _ {F K : Type 0} (c : RedisClient F K) where
  -- The loop of `list_open`; a key that is gone by now is skipped.
  unfoldable pub read_open : List String → K → Result (List (OrderRecord F))
  read_open [] k = ok []
  read_open (key ∷ keys) k = as_persistence "order read failed" (c.get key k) >>= λ raw.
      read_record raw >>= λ r. read_open keys k >>= λ rest. ok (keep_open r rest)

  -- `_iter_keys`
  unfoldable pub iter_keys : String → K → Result (List String)
  iter_keys pattern k = elim c.scan_iter [
    | some scan ↦ scan pattern k
    | none ↦ elim c.keys [ some list_keys ↦ list_keys pattern k | none ↦ err (persistence no_scan) ]
  ]

module _ {F K : Type 0} (c : RedisClient F K) (namespace : String) where
  -- A `TypeError` of the client is raised with another message of the same class.
  unfoldable pub redis_reserve : OrderRecord F → K → Result Bool × K
  redis_reserve r k =
      let (answer, k') =
        c.set true (record_key namespace r.client_order_id) (record_text (to_dict r)) k in
      (as_persistence "order reservation failed" answer, k')

  unfoldable pub redis_get : String → K → Result (Option (OrderRecord F))
  redis_get cid k =
      as_persistence "order read failed" (c.get (record_key namespace cid) k) >>= λ raw.
      read_record raw

  unfoldable pub redis_save : OrderRecord F → K → Result (Unit {0}) × K
  redis_save r k =
      let (answer, k') =
        c.set false (record_key namespace r.client_order_id) (record_text (to_dict r)) k in
      (done (as_persistence "order write failed" answer), k')

  unfoldable pub redis_list_open : K → Result (List (OrderRecord F))
  unfolding read_open iter_keys
  redis_list_open k =
      as_scanned (iter_keys c (namespace <> ":rec:*") k) >>= λ found. read_open c found k

  unfoldable pub redis_record_trade : String → FillData F → K → Result Bool × K
  redis_record_trade cid fill k =
      let fill_id = text_or fill.fill_id "" in
      if not (is_nonempty fill_id)
      then (err (value_error "fill must carry a fill_id"), k)
      else (let (answer, k') = c.set true (trade_key namespace fill_id) (trade_text cid fill) k in
          (as_persistence "trade write failed" answer, k'))

module _ {F K : Type 0} ⦃d : Double F⦄ (c : RedisClient F K) where
  -- The write of `apply_position_delta`, if the position could be read.
  abbrev pub write_position : String → ℤ → F → Result (Position F) → K → Result (Position F) × K
  write_position key qty_delta price (err e) k = (err (failed "position write failed" e), k)
  write_position key qty_delta price (ok p) k =
      let q = shift_position p qty_delta price in
      written_position q (c.set false key (position_text q) k)

module _ {F K : Type 0} ⦃d : Double F⦄ (c : RedisClient F K) (namespace : String) where
  unfoldable pub redis_get_position : String → String → String → K → Result (Position F)
  redis_get_position symbol exchange product k =
      as_persistence "position read failed"
        (c.get (redis_position_key namespace symbol exchange product) k)
      >>= λ raw. read_position raw (no_position symbol exchange product)

  unfoldable pub redis_apply_position_delta :
      String → String → String → ℤ → F → K → Result (Position F) × K
  redis_apply_position_delta symbol exchange product qty_delta price k =
      let key = redis_position_key namespace symbol exchange product in
      write_position c key qty_delta price
        (c.get key k >>= λ raw. read_position raw (no_position symbol exchange product)) k
