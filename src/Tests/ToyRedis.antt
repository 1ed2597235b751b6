-- ===== src/Tests/ToyRedis.antt =====
-- A Redis client over a dict, for the runs of `RedisOrderStore` (lifecycle.py).
use algo_dollar.Base.{
  ◌≡◌, refl, String, Bool, true, false, ◌&&◌, none, some, List, [], ◌∷◌, if◌then◌else◌,
}
use algo_dollar.Base.Dict.{Dict, lookup, insert, lookup-insert}
use algo_dollar.Double.{Units}
use algo_dollar.Errors.{Result, ok}
use algo_dollar.Lifecycle.Redis.{Stored, record_text, RedisClient}
use algo_dollar.Lifecycle.Redis.Represents.{IsRedis, is_there}

abbrev pub Kept : Type 0
Kept = Dict (Stored Units)

abbrev pub kept_set : Bool → String → Stored Units → Kept → Result Bool × Kept
kept_set nx key v k =
    if nx && is_there (lookup key k) then (ok false, k) else (ok true, insert key v k)

abbrev record_keys_of : Kept → List String
record_keys_of [] = []
record_keys_of ((key, record_text _) ∷ k) = key ∷ record_keys_of k
record_keys_of ((key, _) ∷ k) = record_keys_of k

abbrev pub toy_redis : RedisClient Units Kept
toy_redis = record {
  set = kept_set;
  get = λ key k. ok (lookup key k);
  scan_iter = some (λ _ k. ok (record_keys_of k));
  keys = none;
}

pub claims_absent :
    (key : String) (v : Stored Units) (k : Kept)
    → lookup key k ≡ none
    → kept_set true key v k ≡ (ok true, insert key v k)
claims_absent key v k e = rw e refl

pub refuses_there :
    (key : String) (v : Stored Units) (k : Kept) {w : Stored Units}
    → lookup key k ≡ some w
    → kept_set true key v k ≡ (ok false, k)
refuses_there key v k e = rw e refl

abbrev pub toy_redis-IsRedis : IsRedis toy_redis
toy_redis-IsRedis = record {
  view = λ k key. lookup key k;
  reads = λ key k. refl;
  writes = λ key v k. refl;
  written = λ key v k j. lookup-insert key j v k;
  claims = λ key v k e. rw (claims_absent key v k e) refl;
  claimed = λ key v k j e. rw (claims_absent key v k e) (lookup-insert key j v k);
  refuses = λ key v k e. rw (refuses_there key v k e) refl;
  refused = λ key v k j e. rw (refuses_there key v k e) refl;
}
