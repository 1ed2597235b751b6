-- ===== src/Orders/Exec/Gives.antt =====
-- What holds of the value that a coroutine returns, when it returns one.
use algo_dollar.Base.{◌≡◌, refl, Bool, true, false, subst, if◌then◌else◌}
use algo_dollar.Errors.{Exn, Result, ok, err}
use algo_dollar.Orders.Exec.{World, Exec, pure, raise, lift, continue, ◌>>=◌}

abbrev pub Holds : {A : Type 0} → (A → Type 0) → Result A → Type 0
Holds Q (ok a) = Q a
Holds Q (err e) = Unit

module _ {F X A : Type 0} (Q : A → Type 0) where
  pub record Gives (m : Exec F X A) : Type 0 where
    pub at : (w : World F X) → Holds Q (m w).0

module _ {F X A : Type 0} {Q : A → Type 0} where
  pub Gives-pure : (a : A) → Q a → Gives {F = F} {X = X} Q (pure a)
  unfolding pure
  Gives-pure a q = record { at = λ w. q }

  pub Gives-raise : (e : Exn) → Gives {F = F} {X = X} Q (raise e)
  unfolding raise
  Gives-raise e = record { at = λ w. tt }

  pub Gives-lift : (m : Result A) → ((a : A) → m ≡ ok a → Q a) → Gives {F = F} {X = X} Q (lift m)
  unfolding lift
  Gives-lift m q = record { at = λ w. go m q }
    where
      go : (m : Result A) → ((a : A) → m ≡ ok a → Q a) → Holds Q m
      go (ok a) q = q a refl
      go (err e) q = tt

  pub Gives-if :
      (b : Bool) (m n : Exec F X A)
      → (b ≡ true → Gives Q m)
      → (b ≡ false → Gives Q n)
      → Gives Q (if b then m else n)
  Gives-if true m n gm gn = gm refl
  Gives-if false m n gm gn = gn refl

  pub gives_returned : (m : Exec F X A) → Gives Q m → (w : World F X) {a : A} → (m w).0 ≡ ok a → Q a
  gives_returned m g w h = subst (Holds Q) h (g.at w)

module _ {F X A B : Type 0} {R : A → Type 0} {Q : B → Type 0} where
  Gives-continue :
      (r : Result A) (f : A → Exec F X B) (v : World F X)
      → Holds R r
      → ((a : A) → R a → Gives Q (f a))
      → Holds Q (continue r f v).0
  Gives-continue (ok a) f v h rest = (rest a h).at v
  Gives-continue (err e) f v h rest = tt

  pub Gives-bind :
      (m : Exec F X A) (f : A → Exec F X B)
      → Gives R m
      → ((a : A) → R a → Gives Q (f a))
      → Gives Q (m >>= f)
  unfolding ◌>>=◌
  Gives-bind m f gm gf = record { at = λ w. Gives-continue (m w).0 f (m w).1 (gm.at w) gf }

module _ {F X A : Type 0} where
  Gives-anything : (m : Exec F X A) → Gives (λ _. Unit {0}) m
  Gives-anything m = record { at = λ w. go (m w).0 }
    where
      go : (r : Result A) → Holds (λ _. Unit {0}) r
      go (ok a) = tt
      go (err e) = tt

module _ {F X A B : Type 0} {Q : B → Type 0} where
  -- Nothing is asked of what the first step returns.
  pub Gives-then :
      (m : Exec F X A) (f : A → Exec F X B) → ((a : A) → Gives Q (f a)) → Gives Q (m >>= f)
  Gives-then m f gf = Gives-bind m f (Gives-anything m) (λ a _. gf a)
