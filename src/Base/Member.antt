-- ===== src/Base/Member.antt =====
-- `x in xs` for a list or set of texts.
use Prim.Native.String.{String}
use mathlib.Core.Path.{◌≡◌, refl}
use mathlib.Core.Bool.{Bool, true, false, ◌||◌}
use mathlib.Core.List.{List, [], ◌∷◌, ◌++◌}
use native.Mathlib.Omega.{arith}
use text.Mathlib.Text.{◌==◌}
use text.Mathlib.TextPositions.{eq_refl}

unfoldable pub contains : String → List String → Bool
contains x [] = false
contains x (y ∷ ys) = y == x || contains x ys

pub contains-append :
    (x : String) (ys zs : List String) → contains x (ys ++ zs) ≡ (contains x ys || contains x zs)
unfolding contains
contains-append x [] zs = refl
contains-append x (y ∷ ys) zs = ground (arith, contains-append x ys zs)

pub contains-append_self : (x : String) (ys : List String) → contains x (ys ++ x ∷ []) ≡ true
unfolding contains
contains-append_self x [] = ground (arith, eq_refl x)
contains-append_self x (y ∷ ys) = ground (arith, contains-append_self x ys)
