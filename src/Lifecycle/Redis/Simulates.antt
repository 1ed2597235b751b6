-- ===== src/Lifecycle/Redis/Simulates.antt =====
-- `RedisOrderStore` does what `InMemoryOrderStore` does (lifecycle.py), over a client that keeps what it
-- is given.
use algo_dollar.Base.{
  ◌≡◌, refl, sym, ◌∙◌, ap, String, Bool, true, false, Option, none, some, ℤ, arith, Option-cases,
  inl, inr,
}
use algo_dollar.Base.Dict.{lookup, insert}
use algo_dollar.Errors.{Result, ok, err, ◌>>=◌, ok-pair}
use algo_dollar.Double.{Double}
use algo_dollar.Lifecycle.Record.{OrderRecord, OrderDict, to_dict, from_dict}
use algo_dollar.Lifecycle.Store.{
  Position, MemoryStore, position_key, no_position, position_or, shift_position, reserve, get, save,
  get_position, apply_position_delta,
}
use algo_dollar.Lifecycle.Redis.{
  record_text, position_text, RedisClient, as_persistence, read_record, record_key, done,
  written_position, redis_position_key, redis_reserve, redis_get, redis_save, read_position,
  write_position, redis_apply_position_delta,
}
use algo_dollar.Lifecycle.Redis.Represents.{
  IsRedis, Represents, map_option, is_there, record_put, position_put,
}
use algo_dollar.Lifecycle.Redis.Calls.{
  StoreCall, reserving, saving, getting, shifting, Answer, yes_no, found, saved, held_position,
  answered, redis_step,
}

module _ {F : Type 0} ⦃d : Double F⦄ where
  read_held :
      (o : Option (Position F)) (n : Position F)
      → read_position (map_option position_text o) n ≡ ok (position_or o n)
  read_held none n = refl
  read_held (some p) n = refl

written_ok :
    {F K : Type 0} (p : Position F) (x : Result Bool × K)
    → x.0 ≡ ok true
    → written_position p x ≡ (ok p, x.1)
written_ok p (ok b, k) e = refl
written_ok p (err raised, k) e = ground arith

module _ {F K : Type 0} (c : RedisClient F K) (laws : IsRedis c) (namespace : String) where
  -- Redis whose keys hold what they held represents what it did.
  pub kept_same :
      (k k' : K) (s : MemoryStore F)
      → ((j : String) → laws.view k' j ≡ laws.view k j)
      → Represents c laws namespace k s
      → Represents c laws namespace k' s
  kept_same k k' s same h = record {
    records = λ cid. same _ ∙ h.records cid;
    trades = λ fid. ap is_there (same _) ∙ h.trades fid;
    positions = λ key. same _ ∙ h.positions key;
  }

module _ {F : Type 0} where
  save-ok :
      (r : OrderRecord F) (s s' : MemoryStore F)
      → save r s ≡ ok s'
      → record s { records = insert r.client_order_id (to_dict r) s.records } ≡ s'
  unfolding save
  save-ok r s s' e = elim (Option-cases (lookup r.client_order_id s.records)) [
    | inl free ↦ ground arith
    | inr (o, there) ↦ ground arith
  ]

  read_text :
      (o : Option (OrderDict F))
      → read_record (map_option record_text o)
        ≡ elim o [ none ↦ ok none | some x ↦ (from_dict x >>= λ r. ok (some r)) ]
  read_text none = refl
  read_text (some x) = refl

  read-get :
      (cid : String) (s : MemoryStore F)
      → read_record (map_option record_text (lookup cid s.records)) ≡ get cid s
  unfolding get
  read-get cid s = read_text (lookup cid s.records)

module _ {F K : Type 0} ⦃d : Double F⦄ (c : RedisClient F K) (laws : IsRedis c)
    (namespace : String) where
  -- What a call of Redis gives where the in-memory store gives an answer and a state.
  abbrev pub Follows : StoreCall F → K → Answer F → MemoryStore F → Type 0
  Follows call k a s =
      ((redis_step c namespace call k).0 ≡ ok a)
      × Represents c laws namespace (redis_step c namespace call k).1 s

  pub Follows-as :
      {A : Type 0} (f : A → Answer F) (call : StoreCall F) (k : K) (t s : MemoryStore F) (a b : A)
      → Follows call k (f a) t
      → Path (Result (A × MemoryStore F)) (ok (a, t)) (ok (b, s))
      → Follows call k (f b) s
  Follows-as f call k t s a b h e = let (same, here) = ok-pair e in rw (sym same, sym here) h

  pub reserve-Follows :
      (r : OrderRecord F) (k : K) (s : MemoryStore F)
      → Represents c laws namespace k s
      → Follows (reserving r) k (yes_no (reserve r s).0) (reserve r s).1
  unfolding redis_step redis_reserve reserve
  reserve-Follows r k s h =
      let cid = r.client_order_id in
      let key = record_key namespace cid in
      let v = record_text (to_dict r) in
      elim (Option-cases (lookup cid s.records)) [
        | inl e ↦
            let free : laws.view k key ≡ none = h.records cid ∙ ap (map_option record_text) e in
            rw (e, reserve)
              (
                ap (λ m. answered yes_no (as_persistence "order reservation failed" m))
                    (laws.claims key v k free),
                record_put c laws namespace k _ s r h (λ j. laws.claimed key v k j free),
              )
        | inr (o, e) ↦
            let taken : laws.view k key ≡ some (record_text o) =
              h.records cid ∙ ap (map_option record_text) e in
            rw (e, reserve)
              (
                ap (λ m. answered yes_no (as_persistence "order reservation failed" m))
                    (laws.refuses key v k taken),
                kept_same c laws namespace k _ s (λ j. laws.refused key v k j taken) h,
              )
      ]

  pub save-Follows :
      (r : OrderRecord F) (k : K) (s s' : MemoryStore F)
      → Represents c laws namespace k s
      → save r s ≡ ok s'
      → Follows (saving r) k saved s'
  unfolding redis_step redis_save
  save-Follows r k s s' h e =
      let key = record_key namespace r.client_order_id in
      let v = record_text (to_dict r) in
      (
        ap (λ m. answered (λ _. saved) (done (as_persistence "order write failed" m)))
            (laws.writes key v k),
        rw (sym (save-ok r s s' e)) (record_put c laws namespace k _ s r h (laws.written key v k)),
      )

  pub get-Follows :
      (cid : String) (k : K) (s : MemoryStore F) (o : Option (OrderRecord F))
      → Represents c laws namespace k s
      → get cid s ≡ ok o
      → Follows (getting cid) k (found o) s
  unfolding redis_step redis_get
  get-Follows cid k s o h e =
      let key = record_key namespace cid in
      (
        ap (λ m. answered found (as_persistence "order read failed" m >>= λ raw. read_record raw))
              (laws.reads key k ∙ ap ok (h.records cid))
            ∙ ap (answered found) (read-get cid s ∙ e),
        h,
      )

  shift_lem :
      (symbol exchange product : String) (change : ℤ) (price : F) (k : K) (s : MemoryStore F)
      → Represents c laws namespace k s
      → (let key = redis_position_key namespace symbol exchange product in
          let q = shift_position (get_position symbol exchange product s) change price in
          redis_apply_position_delta c namespace symbol exchange product change price k
          ≡ (ok q, (c.set false key (position_text q) k).1))
  unfolding redis_apply_position_delta get_position
  shift_lem symbol exchange product change price k s h =
      let key = redis_position_key namespace symbol exchange product in
      let n = no_position symbol exchange product in
      let pk = position_key symbol exchange product in
      ap (λ m. write_position c key change price (m >>= λ raw. read_position raw n) k)
        (laws.reads key k ∙ ap ok (h.positions pk))
      ∙ ap (λ m. write_position c key change price m k) (read_held (lookup pk s.positions) n)
      ∙ written_ok _ _ (laws.writes key _ k)

  pub shift-Follows :
      (symbol exchange product : String) (change : ℤ) (price : F) (k : K) (s : MemoryStore F)
      → Represents c laws namespace k s
      → (let (p, s') = apply_position_delta symbol exchange product change price s in
          Follows (shifting symbol exchange product change price) k (held_position p) s')
  unfolding redis_step redis_apply_position_delta apply_position_delta
  shift-Follows symbol exchange product change price k s h =
      let key = redis_position_key namespace symbol exchange product in
      let q = shift_position (get_position symbol exchange product s) change price in
      rw (shift_lem symbol exchange product change price k s h) (
        refl,
        position_put c laws namespace k _ s (position_key symbol exchange product) q h
            (laws.written key (position_text q) k),
      )
