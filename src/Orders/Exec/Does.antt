-- ===== src/Orders/Exec/Does.antt =====
-- Coroutines that return from every state with a property: what they return, in which states, and
-- how many orders they place.
use algo_dollar.Base.{
  ℕ, ◌+◌, ◌≡◌, refl, sym, subst, ◌∙◌, ap, String, Bool, true, false, Option, [], ◌∷◌, if◌then◌else◌,
  arith,
}
use algo_dollar.Errors.{Result, ok, is_ok}
use algo_dollar.Lifecycle.Record.{OrderRecord, transition, moved_to}
use algo_dollar.Lifecycle.States.{OrderState}
use algo_dollar.Lifecycle.Transitions.{may_move, may_move-assert_transition}
use algo_dollar.Orders.Broker.{PlaceArgs}
use algo_dollar.Orders.Env.{Env}
use algo_dollar.Orders.Exec.{
  World, Exec, Log, save_call, place_call, pure, lift, attempt, ask, call, ◌>>=◌, save_record,
  place_order,
}
use algo_dollar.Orders.Exec.Calls.{places, places-append, IsQuiet}
use algo_dollar.Orders.Exec.Runs.{bind_ok}

module _ {F X A : Type 0} (P : X → Type 0) (Q : A → Type 0) (R : X → Type 0) (n : ℕ) where
  -- From a state with the first property, the coroutine returns a value with the second, in a state
  -- with the third, and places `n` orders.
  pub record Does (m : Exec F X A) : Type 0 where
    pub at :
        (w : World F X)
        → P w.outside
        → (a : A) × ((m w).0 ≡ ok a)
          × Q a
          × R (m w).1.outside
          × (places (m w).1.calls ≡ places w.calls + n)

module _ {F X A : Type 0} {P : X → Type 0} {Q : A → Type 0} where
  pub Does-pure : (a : A) → Q a → Does {F = F} P Q P 0 (pure a)
  unfolding pure
  Does-pure a q = record { at = λ w p. (a, refl, q, p, omega arith) }

  pub Does-lift : (m : Result A) (a : A) → m ≡ ok a → Q a → Does {F = F} P Q P 0 (lift m)
  unfolding lift
  Does-lift m a e q = record { at = λ w p. (a, e, q, p, omega arith) }

  pub Does-ask :
      (f : X → Result A)
      → ((x : X) → P x → (a : A) × (f x ≡ ok a) × Q a)
      → Does {F = F} P Q P 0 (ask f)
  unfolding ask
  Does-ask f g = record { at = λ w p. let (a, e, q) = g w.outside p in (a, e, q, p, omega arith) }

  -- A coroutine that places nothing and returns from every state.
  pub Does-quiet :
      {K : X → Type 0} (m : Exec F X A)
      → IsQuiet K m
      → ((w : World F X) → (a : A) × ((m w).0 ≡ ok a) × Q a)
      → Does P Q (λ _. Unit {0}) 0 m
  Does-quiet m quiet returns = record {
    at = λ w p.
        let (new, e, none_placed, _) = quiet.at w in
        let (a, same, q) = returns w in
        (
          a,
          same,
          q,
          tt,
          ap (λ (l : Log F). places l) e ∙ places-append w.calls new ∙ omega (arith, none_placed),
        );
  }

module _ {F X A : Type 0} {P : X → Type 0} {Q : A → Type 0} {R : X → Type 0} where
  pub Does-weaken :
      {K : X → Type 0} {n : ℕ} (m : Exec F X A)
      → ((x : X) → K x → P x)
      → Does P Q R n m
      → Does K Q R n m
  Does-weaken m weaker does = record { at = λ w k. does.at w (weaker w.outside k) }

  pub Does-if_true :
      {n : ℕ} (b : Bool) (m k : Exec F X A)
      → b ≡ true
      → Does P Q R n m
      → Does P Q R n (if b then m else k)
  Does-if_true true m k e does = does
  Does-if_true false m k e does = ground arith

  pub Does-if_false :
      {n : ℕ} (b : Bool) (m k : Exec F X A)
      → b ≡ false
      → Does P Q R n k
      → Does P Q R n (if b then m else k)
  Does-if_false true m k e does = ground arith
  Does-if_false false m k e does = does

module _ {F X A B : Type 0} {P S T : X → Type 0} {Q : A → Type 0} {R : B → Type 0} {n k : ℕ} where
  pub Does-then :
      (m : Exec F X A) (f : A → Exec F X B)
      → Does P Q S n m
      → ((a : A) → Q a → Does S R T k (f a))
      → Does P R T (n + k) (m >>= f)
  Does-then m f first rest = record {
    at = λ w p.
        let (a, e, q, s, count) = first.at w p in
        let v = (m w).1 in
        let (b, e', r, t, count') = (rest a q).at v s in
        let run : (m >>= f) w ≡ f a v = bind_ok m f (ap (λ (x : Result A). (x, v)) e) in
        (
          b,
          ap (λ (p : Result B × World F X). p.0) run ∙ e',
          r,
          subst (λ (p : Result B × World F X). T p.1.outside) (sym run) t,
          ap (λ (p : Result B × World F X). places p.1.calls) run ∙ count' ∙ omega (arith, count),
        );
  }

-- Writes of the records of one id return, from a state with a property, and keep it.
abbrev pub Saves : {F X : Type 0} → Env F X → String → (X → Type 0) → Type 0
Saves {F} {X} env cid P =
    (r : OrderRecord F) (x : X)
    → r.client_order_id ≡ cid
    → P x
    → ((env.save r x).0 ≡ ok tt) × P (env.save r x).1

module _ {F X : Type 0} (env : Env F X) {P : X → Type 0} where
  pub Does-save :
      {cid : String}
      → Saves env cid P
      → (r : OrderRecord F) → r.client_order_id ≡ cid
      → Does P (λ _. Unit {0}) P 0 (save_record env r)
  unfolding save_record call
  Does-save saves r same = record {
    at = λ w p. (
      tt,
      (saves r w.outside same p).0,
      tt,
      (saves r w.outside same p).1,
      places-append w.calls ((save_call r, is_ok (env.save r w.outside).0) ∷ []) ∙ omega arith,
    );
  }

module _ {F X : Type 0} (env : Env F X) {P R : X → Type 0} where
  pub Does-place :
      (args : PlaceArgs F) (answer : Option String)
      → ((x : X) → P x → ((env.place_order args x).0 ≡ ok answer) × R (env.place_order args x).1)
      → Does P (λ o. o ≡ ok answer) R 1 (attempt (place_order env args))
  unfolding attempt place_order call
  Does-place args answer accepts = record {
    at = λ w p. (
      _,
      refl,
      (accepts w.outside p).0,
      (accepts w.outside p).1,
      places-append w.calls ((place_call args, is_ok (env.place_order args w.outside).0) ∷ [])
          ∙ omega arith,
    );
  }

-- A legal move does not raise.
pub transition_moves :
    {F : Type 0} (r : OrderRecord F) (s : OrderState) (reason : String) (reconciled : Bool)
    → may_move r.state s reconciled ≡ true
    → transition r s reason reconciled ≡ ok (moved_to r s reason reconciled)
unfolding transition
transition_moves r s reason reconciled h =
    rw (may_move-assert_transition r.state s reconciled h) refl
