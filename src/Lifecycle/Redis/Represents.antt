-- ===== src/Lifecycle/Redis/Represents.antt =====
-- When Redis holds what the in-memory order store holds (`RedisOrderStore` and `InMemoryOrderStore` of
-- lifecycle.py), and that each write keeps it so.
use algo_dollar.Base.{
  ◌≡◌, refl, sym, ◌∙◌, ap, String, ◌<>◌, ◌==◌, Bool, true, false, ◌||◌, Option, none, some, List,
  [], ◌∷◌, ◌++◌, if◌then◌else◌, arith,
}
use algo_dollar.Base.Dict.{Dict, lookup, insert, lookup-insert}
use algo_dollar.Base.Member.{contains, contains-append}
use algo_dollar.Errors.{ok}
use algo_dollar.Lifecycle.Record.{OrderRecord, to_dict}
use algo_dollar.Lifecycle.Store.{FillData, Position, MemoryStore}
use algo_dollar.Lifecycle.Redis.{
  Stored, record_text, position_text, RedisClient, record_key, trade_key,
}
use algo_dollar.Lifecycle.Redis.Keys.{
  held_key, record_keys, trade_keys, held_keys, record_trade_keys, record_held_keys,
  trade_record_keys, trade_held_keys, held_record_keys, held_trade_keys,
}

-- What Redis promises of `SET`, `SET NX` and `GET`, for a client whose calls return and whose keys do
-- not expire meanwhile: `view` is the value of a key.
pub record IsRedis {F K : Type 0} (c : RedisClient F K) : Type 0 where
  pub view : K → String → Option (Stored F)
  pub reads : (key : String) (k : K) → c.get key k ≡ ok (view k key)
  pub writes : (key : String) (v : Stored F) (k : K) → (c.set false key v k).0 ≡ ok true
  pub written :
      (key : String) (v : Stored F) (k : K) (j : String)
      → view (c.set false key v k).1 j ≡ (if key == j then some v else view k j)
  pub claims :
      (key : String) (v : Stored F) (k : K) → view k key ≡ none → (c.set true key v k).0 ≡ ok true
  pub claimed :
      (key : String) (v : Stored F) (k : K) (j : String)
      → view k key ≡ none
      → view (c.set true key v k).1 j ≡ (if key == j then some v else view k j)
  pub refuses :
      (key : String) (v : Stored F) (k : K) {w : Stored F}
      → view k key ≡ some w
      → (c.set true key v k).0 ≡ ok false
  pub refused :
      (key : String) (v : Stored F) (k : K) (j : String) {w : Stored F}
      → view k key ≡ some w
      → view (c.set true key v k).1 j ≡ view k j

abbrev pub is_there : {A : Type 0} → Option A → Bool
is_there none = false
is_there (some _) = true

abbrev pub map_option : {A B : Type 0} → (A → B) → Option A → Option B
map_option f none = none
map_option f (some a) = some (f a)

module _ {A B : Type 0} where
  put_here :
      (f : A → B) {t u : Bool} (a : A) {o : Option B} (p : Option A)
      → t ≡ u
      → o ≡ map_option f p
      → (if t then some (f a) else o) ≡ map_option f (if u then some a else p)
  put_here f {t} {u} a {o} p e e' = rw e (rw e' (join u))
    where
      join :
          (b : Bool)
          → (if b then some (f a) else map_option f p) ≡ map_option f (if b then some a else p)
      join true = refl
      join false = refl

module _ {B : Type 0} where
  put_elsewhere : {t : Bool} (b : B) {o : Option B} → t ≡ false → (if t then some b else o) ≡ o
  put_elsewhere b e = rw e refl

  there_here :
      (b : B) {t u known : Bool} (o : Option B)
      → t ≡ u
      → is_there o ≡ known
      → is_there (if t then some b else o) ≡ (known || u)
  there_here b o e e' = ground arith

contains-append_one :
    (g fid : String) (ids : List String)
    → contains g (ids ++ fid ∷ []) ≡ (contains g ids || fid == g)
unfolding contains
contains-append_one g fid ids = contains-append g ids (fid ∷ []) ∙ ground arith

module _ {F K : Type 0} (c : RedisClient F K) (laws : IsRedis c) (namespace : String) where
  -- Redis holds what the in-memory store holds: a record under its id, a fill id as a key, and a
  -- position under its key.
  pub record Represents (k : K) (s : MemoryStore F) : Type 0 where
    pub records :
        (cid : String)
        → laws.view k (record_key namespace cid) ≡ map_option record_text (lookup cid s.records)
    pub trades :
        (fid : String) → is_there (laws.view k (trade_key namespace fid)) ≡ contains fid s.trade_ids
    pub positions :
        (key : String)
        → laws.view k (namespace <> (":pos:" <> key))
          ≡ map_option position_text (lookup key s.positions)

  -- Redis after a value was put under a key.
  abbrev pub PutAt : (k k' : K) → (key : String) → Stored F → Type 0
  PutAt k k' key v = (j : String) → laws.view k' j ≡ (if key == j then some v else laws.view k j)

  -- A record was written under its id.
  pub record_put :
      (k k' : K) (s : MemoryStore F) (r : OrderRecord F)
      → Represents k s
      → PutAt k k' (record_key namespace r.client_order_id) (record_text (to_dict r))
      → Represents k' (record s { records = insert r.client_order_id (to_dict r) s.records })
  record_put k k' s r h put = record {
    records = λ cid.
        put (record_key namespace cid)
        ∙ put_here record_text _ _ (record_keys namespace r.client_order_id cid) (h.records cid)
        ∙ sym (
            ap (map_option record_text)
              (lookup-insert r.client_order_id cid (to_dict r) s.records));
    trades = λ fid.
        ap is_there (put _ ∙ put_elsewhere _ (record_trade_keys namespace r.client_order_id fid))
        ∙ h.trades fid;
    positions = λ key.
        put _
        ∙ put_elsewhere _ (record_held_keys namespace r.client_order_id key)
        ∙ h.positions key;
  }

  -- A fill id was written.
  pub trade_put :
      (k k' : K) (s : MemoryStore F) (fid : String) (v : Stored F)
      (trades' : Dict (List (FillData F)))
      → Represents k s
      → PutAt k k' (trade_key namespace fid) v
      → Represents k' (record s { trade_ids = s.trade_ids ++ fid ∷ []; trades = trades' })
  trade_put k k' s fid v trades' h put = record {
    records = λ cid. put _ ∙ put_elsewhere _ (trade_record_keys namespace fid cid) ∙ h.records cid;
    trades = λ g.
        ap is_there (put (trade_key namespace g))
        ∙ there_here v _ (trade_keys namespace fid g) (h.trades g)
        ∙ sym (contains-append_one g fid s.trade_ids);
    positions =
        λ key. put _ ∙ put_elsewhere _ (trade_held_keys namespace fid key) ∙ h.positions key;
  }

  -- A position was written.
  pub position_put :
      (k k' : K) (s : MemoryStore F) (key : String) (p : Position F)
      → Represents k s
      → PutAt k k' (held_key namespace key) (position_text p)
      → Represents k' (record s { positions = insert key p s.positions })
  position_put k k' s key p h put = record {
    records = λ cid. put _ ∙ put_elsewhere _ (held_record_keys namespace key cid) ∙ h.records cid;
    trades = λ fid.
        ap is_there (put _ ∙ put_elsewhere _ (held_trade_keys namespace key fid)) ∙ h.trades fid;
    positions = λ j.
        put (held_key namespace j)
        ∙ put_here position_text _ _ (held_keys namespace key j) (h.positions j)
        ∙ sym (ap (map_option position_text) (lookup-insert key j p s.positions));
  }
