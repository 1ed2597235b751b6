-- ===== src/Lifecycle/Redis/Calls.antt =====
-- Calls of an order store, one after another: of `InMemoryOrderStore` and of `RedisOrderStore`
-- (lifecycle.py).
use algo_dollar.Base.{String, Bool, Option, List, [], ◌∷◌, ℤ}
use algo_dollar.Errors.{Result, ok, err, ◌>>=◌}
use algo_dollar.Double.{Double}
use algo_dollar.Lifecycle.Record.{OrderRecord}
use algo_dollar.Lifecycle.Store.{
  FillData, Position, MemoryStore, reserve, get, save, record_trade, apply_position_delta,
}
use algo_dollar.Lifecycle.Redis.{
  RedisClient, redis_reserve, redis_get, redis_save, redis_record_trade, redis_apply_position_delta,
}

-- One call of an order store.
pub data StoreCall (F : Type 0) : Type 0 where
  reserving saving : OrderRecord F → StoreCall F
  getting : String → StoreCall F
  trading : String → FillData F → StoreCall F
  shifting : (symbol exchange product : String) → ℤ → F → StoreCall F

-- What a call returns.
pub data Answer (F : Type 0) : Type 0 where
  yes_no : Bool → Answer F
  found : Option (OrderRecord F) → Answer F
  saved : Answer F
  held_position : Position F → Answer F

module _ {F : Type 0} where
  abbrev pub answered : {A : Type 0} → (A → Answer F) → Result A → Result (Answer F)
  answered f (ok a) = ok (f a)
  answered f (err e) = err e

  abbrev pub cons_answer : Answer F → Result (List (Answer F)) → Result (List (Answer F))
  cons_answer a (ok as_) = ok (a ∷ as_)
  cons_answer a (err e) = err e

module _ {F : Type 0} ⦃d : Double F⦄ where
  -- A call of the in-memory store.
  unfoldable pub memory_step : StoreCall F → MemoryStore F → Result (Answer F × MemoryStore F)
  memory_step (reserving r) s = let (b, s') = reserve r s in ok (yes_no b, s')
  memory_step (saving r) s = save r s >>= λ s'. ok (saved, s')
  memory_step (getting cid) s = get cid s >>= λ o. ok (found o, s)
  memory_step (trading cid fill) s = record_trade cid fill s >>= λ (b, s'). ok (yes_no b, s')
  memory_step (shifting symbol exchange product change price) s =
      let (p, s') = apply_position_delta symbol exchange product change price s in
      ok (held_position p, s')

  unfoldable pub memory_run :
      List (StoreCall F) → MemoryStore F → Result (List (Answer F) × MemoryStore F)
  memory_run [] s = ok ([], s)
  memory_run (call ∷ calls) s =
      memory_step call s >>= λ (a, s'). memory_run calls s' >>= λ (as_, t). ok (a ∷ as_, t)

module _ {F K : Type 0} ⦃d : Double F⦄ (c : RedisClient F K) (namespace : String) where
  -- A call of the Redis store.
  unfoldable pub redis_step : StoreCall F → K → Result (Answer F) × K
  redis_step (reserving r) k =
      let (m, k') = redis_reserve c namespace r k in (answered yes_no m, k')
  redis_step (saving r) k =
      let (m, k') = redis_save c namespace r k in (answered (λ _. saved) m, k')
  redis_step (getting cid) k = (answered found (redis_get c namespace cid k), k)
  redis_step (trading cid fill) k =
      let (m, k') = redis_record_trade c namespace cid fill k in (answered yes_no m, k')
  redis_step (shifting symbol exchange product change price) k =
      let (m, k') = redis_apply_position_delta c namespace symbol exchange product change price k in
      (answered held_position m, k')

  -- The calls in turn; the first that raises ends the run.
  unfoldable pub redis_run : List (StoreCall F) → K → Result (List (Answer F)) × K
  redis_run [] k = (ok [], k)
  redis_run (call ∷ calls) k =
      let (m, k') = redis_step call k in
      elim m [
        | err e ↦ (err e, k')
        | ok a ↦ (let (rest, k'') = redis_run calls k' in (cons_answer a rest, k''))
      ]
