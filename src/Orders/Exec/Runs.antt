-- ===== src/Orders/Exec/Runs.antt =====
-- Running a coroutine step by step.
use algo_dollar.Base.{◌≡◌, refl, ap, true, [], ◌∷◌, ◌++◌, arith}
use algo_dollar.Errors.{Exn, Result, ok, err, is_ok}
use algo_dollar.Orders.Exec.{Call, World, Exec, continue, ◌>>=◌, call, lift, pure, raise}

module _ {F X A B : Type 0} (m : Exec F X A) (f : A → Exec F X B) where
  pub bind_ok : {a : A} {w v : World F X} → m w ≡ (ok a, v) → (m >>= f) w ≡ f a v
  unfolding ◌>>=◌
  bind_ok {a} {w} {v} e = ap (λ (p : Result A × World F X). continue p.0 f p.1) e

  pub bind_err : {e : Exn} {w v : World F X} → m w ≡ (err e, v) → (m >>= f) w ≡ (err e, v)
  unfolding ◌>>=◌
  bind_err {e} {w} {v} h = ap (λ (p : Result A × World F X). continue p.0 f p.1) h

  -- A sequence that returned: so did its first step.
  pub bind_returned :
      {b : B} (w : World F X)
      → ((m >>= f) w).0 ≡ ok b
      → (a : A) × ((m w).0 ≡ ok a) × ((f a (m w).1).0 ≡ ok b) × ((m >>= f) w ≡ f a (m w).1)
  unfolding ◌>>=◌
  bind_returned {b} w h = go (m w).0 (m w).1 h
    where
      go :
          (r : Result A) (v : World F X)
          → (continue r f v).0 ≡ ok b
          → (a : A) × (r ≡ ok a) × ((f a v).0 ≡ ok b) × (continue r f v ≡ f a v)
      go (ok a) v h = (a, refl, h, refl)
      go (err e) v h = ground arith

module _ {F X A : Type 0} where
  -- A call that returned stands in the log as such.
  pub call_returned :
      (c : Call F) (f : X → Result A × X) (w : World F X) {a : A}
      → (call c f w).0 ≡ ok a
      → (call c f w).1.calls ≡ w.calls ++ (c, true) ∷ []
  unfolding call
  call_returned c f w h = ap (λ (m : Result A). w.calls ++ (c, is_ok m) ∷ []) h

module _ {F X A B : Type 0} where
  -- A fallible value, then the rest, that returned.
  pub lifted_returned :
      (m : Result A) (f : A → Exec F X B) {b : B} (w : World F X)
      → ((lift m >>= f) w).0 ≡ ok b
      → (a : A) × (m ≡ ok a) × ((f a w).0 ≡ ok b) × ((lift m >>= f) w ≡ f a w)
  unfolding lift ◌>>=◌
  lifted_returned (ok a) f w h = (a, refl, h, refl)
  lifted_returned (err e) f w h = ground arith

module _ {F X A : Type 0} where
  -- The end of a run, by the equation of the run.
  pub end_calls : {p q : Result A × World F X} → p ≡ q → p.1.calls ≡ q.1.calls
  end_calls e = ap (λ (p : Result A × World F X). p.1.calls) e

  pub pure_returned : (a : A) (w : World F X) {b : A} → (pure a w).0 ≡ ok b → b ≡ a
  unfolding pure
  pure_returned a w h = ground arith

  pub pure_calls : (a : A) (w : World F X) → (pure a w).1.calls ≡ w.calls
  unfolding pure
  pure_calls a w = refl

  pub raise_runs : (e : Exn) (w : World F X) → raise {A = A} e w ≡ (err e, w)
  unfolding raise
  raise_runs e w = refl
