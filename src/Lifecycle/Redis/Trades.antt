-- ===== src/Lifecycle/Redis/Trades.antt =====
-- `record_trade` of `RedisOrderStore` does what that of `InMemoryOrderStore` does (lifecycle.py).
use algo_dollar.Base.{
  ◌≡◌, refl, ◌∙◌, ap, String, Bool, true, false, Option, none, some, List, [], ◌∷◌, ◌++◌,
  is_nonempty, arith, Bool-cases, inl, inr,
}
use algo_dollar.Base.Dict.{Dict}
use algo_dollar.Base.Member.{contains}
use algo_dollar.Errors.{ok}
use algo_dollar.Double.{Double}
use algo_dollar.Lifecycle.Store.{FillData, MemoryStore, text_or, record_trade}
use algo_dollar.Lifecycle.Redis.{
  trade_text, RedisClient, as_persistence, trade_key, redis_record_trade,
}
use algo_dollar.Lifecycle.Redis.Represents.{IsRedis, Represents, is_there, trade_put}
use algo_dollar.Lifecycle.Redis.Calls.{trading, yes_no, answered, redis_step}
use algo_dollar.Lifecycle.Redis.Simulates.{Follows, Follows-as, kept_same}

module _ {A : Type 0} where
  of_absent : (o : Option A) → is_there o ≡ false → o ≡ none
  of_absent none e = refl
  of_absent (some a) e = ground arith

  of_there : (o : Option A) → is_there o ≡ true → (a : A) × (o ≡ some a)
  of_there none e = ground arith
  of_there (some a) e = (a, refl)

module _ {F K : Type 0} ⦃d : Double F⦄ (c : RedisClient F K) (laws : IsRedis c)
    (namespace : String) where
  trade_set :
      (cid : String) (fill : FillData F) (k : K)
      → is_nonempty (text_or fill.fill_id "") ≡ true
      → redis_record_trade c namespace cid fill k ≡ (
          let x =
            c.set true (trade_key namespace (text_or fill.fill_id "")) (trade_text cid fill) k in
          (as_persistence "trade write failed" x.0, x.1))
  unfolding redis_record_trade
  trade_set cid fill k named = rw named refl

  known-Follows :
      (cid : String) (fill : FillData F) (k : K) (s : MemoryStore F)
      → Represents c laws namespace k s
      → is_nonempty (text_or fill.fill_id "") ≡ true
      → contains (text_or fill.fill_id "") s.trade_ids ≡ true
      → Follows c laws namespace (trading cid fill) k (yes_no false) s
  unfolding redis_step
  known-Follows cid fill k s h named known =
      let fid = text_or fill.fill_id "" in
      let key = trade_key namespace fid in
      let v = trade_text cid fill in
      let (w, there) = of_there (laws.view k key) (h.trades fid ∙ known) in
      rw (trade_set cid fill k named) (
        ap (λ m. answered yes_no (as_persistence "trade write failed" m))
            (laws.refuses key v k there),
        kept_same c laws namespace k _ s (λ j. laws.refused key v k j there) h,
      )

  new-Follows :
      (cid : String) (fill : FillData F) (k : K) (s : MemoryStore F)
      (trades' : Dict (List (FillData F)))
      → Represents c laws namespace k s
      → is_nonempty (text_or fill.fill_id "") ≡ true
      → contains (text_or fill.fill_id "") s.trade_ids ≡ false
      → Follows c laws namespace
          (trading cid fill)
          k
          (yes_no true)
          (record s { trades = trades'; trade_ids = s.trade_ids ++ text_or fill.fill_id "" ∷ [] })
  unfolding redis_step
  new-Follows cid fill k s trades' h named new =
      let fid = text_or fill.fill_id "" in
      let key = trade_key namespace fid in
      let v = trade_text cid fill in
      let free = of_absent (laws.view k key) (h.trades fid ∙ new) in
      rw (trade_set cid fill k named) (
        ap (λ m. answered yes_no (as_persistence "trade write failed" m))
            (laws.claims key v k free),
        trade_put c laws namespace k _ s fid v trades' h (λ j. laws.claimed key v k j free),
      )

  pub trade-Follows :
      (cid : String) (fill : FillData F) (k : K) (s s' : MemoryStore F) (b : Bool)
      → Represents c laws namespace k s
      → record_trade cid fill s ≡ ok (b, s')
      → Follows c laws namespace (trading cid fill) k (yes_no b) s'
  unfolding redis_step redis_record_trade record_trade
  trade-Follows cid fill k s s' b h e =
      let fid = text_or fill.fill_id "" in
      let key = trade_key namespace fid in
      elim (Bool-cases (is_nonempty fid)) [
        | inr empty ↦ (let e' = rw (empty, record_trade) at e in ground arith)
        | inl named ↦ elim (Bool-cases (contains fid s.trade_ids)) [
          | inl known ↦
              (let e' = rw (named, known, record_trade) at e in
                Follows-as c laws namespace yes_no (trading cid fill) k s s' false b
                  (known-Follows cid fill k s h named known) e')
          | inr new ↦
              (let e' = rw (named, new, record_trade) at e in
                Follows-as c laws namespace yes_no (trading cid fill) k _ s' true b
                  (new-Follows cid fill k s _ h named new) e')
        ]
      ]
