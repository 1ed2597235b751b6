-- ===== src/Base/Lists.antt =====
-- Lists measured by native numbers, and predicates on lists by recursion.
use Prim.Native.Nat.{ℕ, suc, ◌+◌}
use mathlib.Core.Path.{◌≡◌}
use mathlib.Core.Bool.{Bool}
use mathlib.Core.List.{List, [], ◌∷◌, ◌++◌}
use native.Mathlib.Omega.{arith}
use algo_dollar.Base.Tests.{if◌then◌else◌}

module _ {ℓ} {A : Type ℓ} where
  abbrev pub length : List A → ℕ
  length [] = 0
  length (_ ∷ xs) = suc (length xs)

  pub length-append : (xs ys : List A) → length (xs ++ ys) ≡ length xs + length ys
  length-append [] ys = omega arith
  length-append (_ ∷ xs) ys = omega (arith, length-append xs ys)

  abbrev pub All {κ} : (A → Type κ) → List A → Type κ
  All P [] = Unit
  All P (x ∷ xs) = P x × All P xs

  -- `[x for x in xs if keep(x)]`
  abbrev pub keep_if : (A → Bool) → List A → List A
  keep_if keep [] = []
  keep_if keep (x ∷ xs) = let rest = keep_if keep xs in if keep x then x ∷ rest else rest

  -- How many entries pass a test.
  abbrev pub count_if : (A → Bool) → List A → ℕ
  count_if test [] = 0
  count_if test (x ∷ xs) = let rest = count_if test xs in if test x then suc rest else rest

  pub count_if-append :
      (test : A → Bool) (xs ys : List A)
      → count_if test (xs ++ ys) ≡ count_if test xs + count_if test ys
  count_if-append test [] ys = omega arith
  count_if-append test (x ∷ xs) ys = ground (arith, count_if-append test xs ys)
