-- ===== src/Orders/Placed.antt =====
-- How many orders the coroutines of order_manager.py place under one client order id, step by step.
use mathlib.Core.List.{append_assoc, append-nil}
use algo_dollar.Base.{
  ℕ, ◌+◌, ◌≡◌, refl, sym, ◌∙◌, ap, String, ◌==◌, eq_iff, Bool, true, false, ◌⊎◌, inl, inr, [], ◌∷◌,
  ◌++◌, count_if, count_if-append, arith, Bool-cases,
}
use algo_dollar.Errors.{Result, ok, err}
use algo_dollar.Lifecycle.Record.{OrderRecord}
use algo_dollar.Orders.Broker.{PlaceArgs}
use algo_dollar.Orders.Env.{Env}
use algo_dollar.Orders.Exec.{
  Call, reserve_call, save_call, trade_call, position_call, place_call, cancel_call, engage_call,
  Log, World, Exec, continue, ◌>>=◌,
}
use algo_dollar.Orders.Exec.Calls.{places, IsKept, IsQuiet}
use algo_dollar.Orders.Submit.Sends.{MaySend, Sends, nothing, once}

module _ {F : Type 0} where
  abbrev pub is_named : String → Call F → Bool
  is_named cid (place_call args) = args.tag == cid
  is_named cid _ = false

  -- How many orders were placed under an id.
  abbrev pub placed_as : String → Log F → ℕ
  placed_as cid log = count_if (λ c. is_named cid c.0) log

  placed_as-append :
      (cid : String) (xs ys : Log F)
      → placed_as cid (xs ++ ys) ≡ placed_as cid xs + placed_as cid ys
  placed_as-append cid xs ys = count_if-append (λ c. is_named cid c.0) xs ys

  placed_as-nothing : (cid : String) (log : Log F) → places log ≡ 0 → placed_as cid log ≡ 0
  placed_as-nothing cid [] n = refl
  placed_as-nothing cid ((place_call args, b) ∷ log) n = ground arith
  placed_as-nothing cid ((reserve_call r, b) ∷ log) n = placed_as-nothing cid log n
  placed_as-nothing cid ((save_call r, b) ∷ log) n = placed_as-nothing cid log n
  placed_as-nothing cid ((trade_call c f, b) ∷ log) n = placed_as-nothing cid log n
  placed_as-nothing cid ((position_call s e p z x, b) ∷ log) n = placed_as-nothing cid log n
  placed_as-nothing cid ((engage_call, b) ∷ log) n = placed_as-nothing cid log n
  placed_as-nothing cid ((cancel_call i, b) ∷ log) n = placed_as-nothing cid log n

  placed_as-Sends :
      {args : PlaceArgs F} {G : Type 0} (cid : String) (log : Log F)
      → Sends args G log
      → (placed_as cid log ≡ 0) ⊎ ((placed_as cid log ≡ 1) × (args.tag ≡ cid) × G)
  placed_as-Sends {args} cid log (nothing n) = inl (placed_as-nothing cid log n)
  placed_as-Sends {args} cid log (once before after r answered b a s c g e) =
      let tail : Log F = (save_call r, true) ∷ (place_call args, answered) ∷ after in
      let zero_before = placed_as-nothing cid before b in
      let zero_after = placed_as-nothing cid after a in
      let split = placed_as-append cid before tail in
      elim (Bool-cases (args.tag == cid)) [
        | inl hit ↦ inr (rw e (ground arith), ground (arith, eq_iff args.tag cid), g)
        | inr miss ↦ inl (rw e (ground arith))
      ]

-- What the order store promises of one id: once a reservation of it has succeeded, none does again,
-- whatever is called in between.
pub record ClaimsOnce {F X : Type 0} (env : Env F X) (cid : String) (Claimed : X → Type 0)
    : Type 0 where
  pub kept : IsKept env Claimed
  pub claims :
      (r : OrderRecord F) (x : X)
      → r.client_order_id ≡ cid
      → (env.reserve r x).0 ≡ ok true
      → Claimed (env.reserve r x).1
  pub refuses :
      (r : OrderRecord F) (x : X)
      → r.client_order_id ≡ cid
      → Claimed x
      → ¬ ((env.reserve r x).0 ≡ ok true)

module _ {F X : Type 0} (env : Env F X) {P : X → Type 0} where
  pub kept_under : (A : Type 0) → IsKept env P → IsKept env (λ x. A → P x)
  kept_under A k = record {
    by_reserve = λ r x p a. k.by_reserve r x (p a);
    by_save = λ r x p a. k.by_save r x (p a);
    by_trade = λ c f x p a. k.by_trade c f x (p a);
    by_position = λ s e c n v x p a. k.by_position s e c n v x (p a);
    by_quote = λ s x p a. k.by_quote s x (p a);
    by_place = λ b x p a. k.by_place b x (p a);
    by_orders = λ x p a. k.by_orders x (p a);
    by_positions = λ x p a. k.by_positions x (p a);
    by_engage = λ x p a. k.by_engage x (p a);
    by_cancel = λ i x p a. k.by_cancel i x (p a);
    by_status = λ i x p a. k.by_status i x (p a);
  }

module _ {F X : Type 0} (cid : String) (Claimed : X → Type 0) where
  -- What a step from `w` to `v` places under the id.
  pub record Step (w v : World F X) : Type 0 where
    pub log : Log F
    pub extends : v.calls ≡ w.calls ++ log
    pub keeps : Claimed w.outside → Claimed v.outside
    pub never_again : Claimed w.outside → placed_as cid log ≡ 0
    pub at_most_one : (placed_as cid log ≡ 0) ⊎ ((placed_as cid log ≡ 1) × Claimed v.outside)

module _ {F X : Type 0} {cid : String} {Claimed : X → Type 0} where
  pub Step-of_quiet :
      {A : Type 0} (m : Exec F X A) (w : World F X) → IsQuiet Claimed m → Step cid Claimed w (m w).1
  Step-of_quiet m w q =
      let (log, e, n, k) = q.at w in
      let none_placed = placed_as-nothing cid log n in
      record {
        log = log;
        extends = e;
        keeps = k;
        never_again = λ _. none_placed;
        at_most_one = inl none_placed;
      }

  pub Step-refl : (w : World F X) → Step cid Claimed w w
  Step-refl w = record {
    log = [];
    extends = sym (append-nil w.calls);
    keeps = λ c. c;
    never_again = λ _. refl;
    at_most_one = inl refl;
  }

  pub Step-then :
      (w v u : World F X) → Step cid Claimed w v → Step cid Claimed v u → Step cid Claimed w u
  Step-then w v u s t =
      let split = placed_as-append cid s.log t.log in
      record {
        log = s.log ++ t.log;
        extends = t.extends ∙ ap (λ l. l ++ t.log) s.extends ∙ append_assoc w.calls s.log t.log;
        keeps = λ c. t.keeps (s.keeps c);
        never_again = λ c.
            let first = s.never_again c in
            let second = t.never_again (s.keeps c) in split ∙ omega arith;
        at_most_one = elim s.at_most_one [
          | inl n ↦ elim t.at_most_one [
            | inl m ↦ inl (split ∙ omega arith)
            | inr (m, c) ↦ inr (split ∙ omega arith, c)
          ]
          | inr (n, c) ↦ let m = t.never_again c in inr (split ∙ omega arith, t.keeps c)
        ];
      }

  -- A coroutine that sends at most one order, which it reserves first.
  pub Step-of_sends :
      {A : Type 0} {args : PlaceArgs F} {G : Type 0} (w : World F X) (out : Result A × World F X)
      → MaySend (λ x. Claimed w.outside → Claimed x) args G w out
      → (args.tag ≡ cid → G → (¬ (Claimed w.outside)) × Claimed out.1.outside)
      → Step cid Claimed w out.1
  Step-of_sends w out ms claimed = elim (placed_as-Sends cid ms.log ms.sends) [
    | inl n ↦ record {
      log = ms.log;
      extends = ms.extends;
      keeps = ms.keeps;
      never_again = λ _. n;
      at_most_one = inl n;
    }
    | inr (n, same, g) ↦ record {
      log = ms.log;
      extends = ms.extends;
      keeps = ms.keeps;
      never_again = λ c. elim ((claimed same g).0 c) [ ];
      at_most_one = inr (n, (claimed same g).1);
    }
  ]

module _ {F X A B : Type 0} {cid : String} {Claimed : X → Type 0} where
  Step-of_continue :
      (w : World F X) (r : Result A) (f : A → Exec F X B) (v : World F X)
      → Step cid Claimed w v
      → ((a : A) → Step cid Claimed v (f a v).1)
      → Step cid Claimed w (continue r f v).1
  Step-of_continue w (ok a) f v s rest = Step-then w v (f a v).1 s (rest a)
  Step-of_continue w (err e) f v s rest = s

  pub Step-of_bind :
      (m : Exec F X A) (f : A → Exec F X B) (w : World F X)
      → Step cid Claimed w (m w).1
      → ((a : A) (v : World F X) → Step cid Claimed v (f a v).1)
      → Step cid Claimed w ((m >>= f) w).1
  unfolding ◌>>=◌
  Step-of_bind m f w s rest = Step-of_continue w (m w).0 f (m w).1 s (λ a. rest a (m w).1)
