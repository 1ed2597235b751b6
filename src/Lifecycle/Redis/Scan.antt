-- ===== src/Lifecycle/Redis/Scan.antt =====
-- What `RedisOrderStore.list_open` finds (lifecycle.py), against `RedisOrderStore.get`.
use mathlib.Core.List.{Memᴰ}
use mathlib.Core.List.Memᴰ
use algo_dollar.Base.{
  ◌≡◌, refl, sym, ◌∙◌, ap, String, ◌<>◌, false, ◌⊎◌, inl, inr, ◌↔◌, Option, none, some, List, [],
  ◌∷◌, Bool-cases,
}
use algo_dollar.Errors.{Result, ok, ◌>>=◌, >>=-eq-ok}
use algo_dollar.Lifecycle.States.{is_terminal}
use algo_dollar.Lifecycle.Record.{OrderRecord}
use algo_dollar.Lifecycle.Redis.{
  RedisClient, as_persistence, read_record, record_key, keep_open, iter_keys, read_open, redis_get,
  redis_list_open,
}

module _ {F : Type 0} where
  keep_open-none :
      (r : OrderRecord F) (o : Option (OrderRecord F)) (rest : List (OrderRecord F))
      → Memᴰ r (keep_open o rest)
      → ((o ≡ some r) × (is_terminal r.state ≡ false)) ⊎ Memᴰ r rest
  keep_open-none r none rest m = inr m
  keep_open-none r (some q) rest m = elim (Bool-cases (is_terminal q.state)) [
    | inl closed ↦ inr (rw closed at m)
    | inr live ↦ elim (Memᴰ.cases_cons (rw live at m)) [
      | inl e ↦ inl (rw e refl, rw e live)
      | inr later ↦ inr later
    ]
  ]

  keep_open-some :
      (r : OrderRecord F) (rest : List (OrderRecord F))
      → is_terminal r.state ≡ false
      → Memᴰ r (keep_open (some r) rest)
  keep_open-some r rest live = rw live (Memᴰ.head refl)

  keep_open-later :
      (r : OrderRecord F) (o : Option (OrderRecord F)) (rest : List (OrderRecord F))
      → Memᴰ r rest
      → Memᴰ r (keep_open o rest)
  keep_open-later r none rest m = m
  keep_open-later r (some q) rest m = elim (Bool-cases (is_terminal q.state)) [
    | inl closed ↦ rw closed m
    | inr live ↦ rw live (Memᴰ.tail m)
  ]

ok_same : {A : Type 0} {a b : A} → Path (Result A) (ok a) (ok b) → a ≡ b
ok_same e = cc

module _ {F K : Type 0} (c : RedisClient F K) (k : K) where
  -- The record under a key.
  abbrev read_at : String → Result (Option (OrderRecord F))
  read_at key = as_persistence "order read failed" (c.get key k) >>= λ raw. read_record raw

  -- The records that `list_open` is to find under some keys.
  abbrev IsLive : List String → OrderRecord F → Type 0
  IsLive keys r =
      (key : String) × Memᴰ key keys × (read_at key ≡ ok (some r)) × (is_terminal r.state ≡ false)

  read_open-step :
      (key : String) (keys : List String) (o : Option (OrderRecord F)) (rest : List (OrderRecord F))
      → read_at key ≡ ok o
      → read_open c keys k ≡ ok rest
      → read_open c (key ∷ keys) k ≡ ok (keep_open o rest)
  unfolding read_open
  read_open-step key keys o rest e h =
      let (raw, got, decoded) =
        >>=-eq-ok (as_persistence "order read failed" (c.get key k)) read_record e in
      rw (got, decoded, h) refl

  IsLive-later :
      (key : String) (keys : List String) (r : OrderRecord F)
      → IsLive keys r
      → IsLive (key ∷ keys) r
  IsLive-later key keys r (j, m, read, going) = (j, Memᴰ.tail m, read, going)

  -- One key more.
  IsLive-step :
      (key : String) (keys : List String) (o : Option (OrderRecord F)) (rest : List (OrderRecord F))
      (r : OrderRecord F)
      → read_at key ≡ ok o
      → Memᴰ r rest ↔ IsLive keys r
      → Memᴰ r (keep_open o rest) ↔ IsLive (key ∷ keys) r
  IsLive-step key keys o rest r read (to, from) = (
    λ m. elim (keep_open-none r o rest m) [
      | inl (here, live) ↦ (key, Memᴰ.head refl, read ∙ ap ok here, live)
      | inr later ↦ IsLive-later key keys r (to later)
    ],
    λ (j, m, at_j, live). elim (Memᴰ.cases_cons m) [
      | inl e ↦
          let same : o ≡ some r = ok_same (sym read ∙ ap read_at (sym e) ∙ at_j) in
          rw same (keep_open-some r rest live)
      | inr later ↦ keep_open-later r o rest (from (j, later, at_j, live))
    ],
  )

  read_open-all :
      (keys : List String)
      → ((key : String) → Memᴰ key keys → (o : Option (OrderRecord F)) × (read_at key ≡ ok o))
      → (rs : List (OrderRecord F)) × (read_open c keys k ≡ ok rs)
        × ((r : OrderRecord F) → Memᴰ r rs ↔ IsLive keys r)
  unfolding read_open
  read_open-all [] readable =
      ([], refl, λ r. (λ m. absurd (Memᴰ.not-nil m), λ (_, m, _, _). absurd (Memᴰ.not-nil m)))
  read_open-all (key ∷ keys) readable =
      let (o, read) = readable key (Memᴰ.head refl) in
      let (rest, all, live) = read_open-all keys (λ j m. readable j (Memᴰ.tail m)) in
      (
        keep_open o rest,
        read_open-step key keys o rest read all,
        λ r. IsLive-step key keys o rest r read (live r),
      )

module _ {F K : Type 0} (c : RedisClient F K) (namespace : String) (k : K) where
  -- What a scan for the keys of records gives: keys of records only, in any order and with repetitions,
  -- and no key left out under which a record is read.
  pub record Scanned (found : List String) : Type 0 where
    pub returned : iter_keys c (namespace <> ":rec:*") k ≡ ok found
    pub only : (key : String) → Memᴰ key found → (cid : String) × (key ≡ record_key namespace cid)
    pub every :
        (cid : String) {r : OrderRecord F}
        → redis_get c namespace cid k ≡ ok (some r)
        → Memᴰ (record_key namespace cid) found

  -- Where the scan of Redis gives all the keys of records and no others, and each of them can be
  -- read, list_open returns, and what it lists are exactly the records that get returns for some id
  -- and whose state is not terminal.
  pub redis_list_open_iff :
      {found : List String}
      → Scanned found
      → ((cid : String)
          → Memᴰ (record_key namespace cid) found
          → (o : Option (OrderRecord F)) × (redis_get c namespace cid k ≡ ok o))
      → (rs : List (OrderRecord F)) × (redis_list_open c namespace k ≡ ok rs)
        × ((r : OrderRecord F)
            → Memᴰ r rs
              ↔ (cid : String) × (redis_get c namespace cid k ≡ ok (some r))
                × (is_terminal r.state ≡ false))
  unfolding redis_list_open redis_get
  redis_list_open_iff {found} scan readable =
      let (rs, all, live) = read_open-all c k found (λ key m.
        let (cid, e) = scan.only key m in
        let (o, read) = readable cid (Memᴰ.cast (sym e) m) in (o, rw e read)) in
      (
        rs,
        rw scan.returned all,
        λ r. (
          λ m.
              (let (key, found_key, read, going) = (live r).0 m in
                let (cid, e) = scan.only key found_key in (cid, rw (sym e) read, going)),
          λ (cid, read, going).
              (live r).1 (record_key namespace cid, scan.every cid read, read, going),
        ),
      )
