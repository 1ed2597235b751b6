-- ===== src/Orders/Exec/Grows.antt =====
-- Coroutines only add to the log of their calls.
use mathlib.Core.List.{append-nil, append_assoc}
use algo_dollar.Base.{◌≡◌, sym, ◌∙◌, ap, [], ◌++◌}
use algo_dollar.Errors.{Result, ok, err}
use algo_dollar.Orders.Exec.{Log, World, Exec, continue, ◌>>=◌}
use algo_dollar.Orders.Exec.Calls.{IsQuiet}

module _ {F X A : Type 0} where
  pub record Grows (m : Exec F X A) : Type 0 where
    pub at : (w : World F X) → (new : Log F) × ((m w).1.calls ≡ w.calls ++ new)

  pub Grows-of_quiet : {P : X → Type 0} (m : Exec F X A) → IsQuiet P m → Grows m
  Grows-of_quiet m q = record { at = λ w. let (new, e, _, _) = q.at w in (new, e) }

module _ {F X A B : Type 0} where
  Grows-continue :
      (r : Result A) (f : A → Exec F X B) → ((a : A) → Grows (f a)) → Grows (continue r f)
  Grows-continue (ok a) f gf = gf a
  Grows-continue (err e) f gf = record { at = λ w. ([], sym (append-nil w.calls)) }

  pub Grows-bind :
      (m : Exec F X A) (f : A → Exec F X B) → Grows m → ((a : A) → Grows (f a)) → Grows (m >>= f)
  unfolding ◌>>=◌
  Grows-bind m f gm gf = record {
    at = λ w.
        let (new1, e1) = gm.at w in
        let (new2, e2) = (Grows-continue (m w).0 f gf).at (m w).1 in
        (new1 ++ new2, e2 ∙ ap (λ l. l ++ new2) e1 ∙ append_assoc w.calls new1 new2);
  }
