-- ===== src/Lifecycle/Redis/Refines.antt =====
-- Runs of calls: `RedisOrderStore` against `InMemoryOrderStore` (lifecycle.py).
use algo_dollar.Base.{◌≡◌, refl, sym, ◌∙◌, ap, String, List, [], ◌∷◌}
use algo_dollar.Errors.{ok, >>=-eq-ok, ok-pair}
use algo_dollar.Double.{Double}
use algo_dollar.Lifecycle.Store.{MemoryStore}
use algo_dollar.Lifecycle.Redis.{RedisClient}
use algo_dollar.Lifecycle.Redis.Represents.{IsRedis, Represents}
use algo_dollar.Lifecycle.Redis.Calls.{
  StoreCall, reserving, saving, getting, trading, shifting, Answer, memory_step, memory_run,
  redis_step, cons_answer, redis_run,
}
use algo_dollar.Lifecycle.Redis.Simulates.{
  Follows, Follows-as, reserve-Follows, save-Follows, get-Follows, shift-Follows,
}
use algo_dollar.Lifecycle.Redis.Trades.{trade-Follows}

module _ {F K : Type 0} ⦃d : Double F⦄ (c : RedisClient F K) (laws : IsRedis c)
    (namespace : String) where
  step-Follows :
      (call : StoreCall F) (k : K) (s : MemoryStore F) (a : Answer F) (t : MemoryStore F)
      → Represents c laws namespace k s
      → memory_step call s ≡ ok (a, t)
      → Follows c laws namespace call k a t
  unfolding memory_step
  step-Follows (reserving r) k s a t h e =
      Follows-as c laws namespace (λ x. x) (reserving r) k _ t _ a
        (reserve-Follows c laws namespace r k s h) e
  step-Follows (saving r) k s a t h e =
      let (s', kept, last) = >>=-eq-ok _ _ e in
      Follows-as c laws namespace (λ x. x) (saving r) k _ t _ a
        (save-Follows c laws namespace r k s s' h kept) last
  step-Follows (getting cid) k s a t h e =
      let (o, read, last) = >>=-eq-ok _ _ e in
      Follows-as c laws namespace (λ x. x) (getting cid) k _ t _ a
        (get-Follows c laws namespace cid k s o h read) last
  step-Follows (trading cid fill) k s a t h e =
      let ((b, s'), kept, last) = >>=-eq-ok _ _ e in
      Follows-as c laws namespace (λ x. x) (trading cid fill) k _ t _ a
        (trade-Follows c laws namespace cid fill k s s' b h kept) last
  step-Follows (shifting symbol exchange product change price) k s a t h e =
      Follows-as c laws namespace (λ x. x) (shifting symbol exchange product change price) k _ t _ a
        (shift-Follows c laws namespace symbol exchange product change price k s h) e

  run-answered :
      (call : StoreCall F) (calls : List (StoreCall F)) (k : K) (a : Answer F)
      → (redis_step c namespace call k).0 ≡ ok a
      → redis_run c namespace (call ∷ calls) k ≡ (
          let (rest, k'') = redis_run c namespace calls (redis_step c namespace call k).1 in
          (cons_answer a rest, k''))
  unfolding redis_run
  run-answered call calls k a e = rw (e, redis_run) refl

  -- From any state of the in-memory store that Redis represents: where a list of calls (reserve, save,
  -- get, record a trade, shift a position) raises nothing on the in-memory store, the Redis store gives
  -- the same answers to them, and ends in what represents the in-memory store's last state.
  pub redis_refines :
      (calls : List (StoreCall F)) (k : K) (s : MemoryStore F) (answers : List (Answer F))
      (t : MemoryStore F)
      → Represents c laws namespace k s
      → memory_run calls s ≡ ok (answers, t)
      → ((redis_run c namespace calls k).0 ≡ ok answers)
        × Represents c laws namespace (redis_run c namespace calls k).1 t
  unfolding memory_run redis_run
  redis_refines [] k s answers t h e =
      let (none_left, same) = ok-pair e in (ap ok none_left, rw (sym same) h)
  redis_refines (call ∷ calls) k s answers t h e =
      let ((a, s'), first, rest) = >>=-eq-ok _ _ e in
      let ((answers', t'), others, last) = >>=-eq-ok _ _ rest in
      let (answered_a, h') = step-Follows call k s a s' h first in
      let (all, h'') = redis_refines calls _ s' answers' t' h' others in
      let (listed, here) = ok-pair last in
      rw (run-answered call calls k a answered_a)
        (ap (cons_answer a) all ∙ ap ok listed, rw (sym here) h'')
