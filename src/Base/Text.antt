-- ===== src/Base/Text.antt =====
-- Python's `str` as the native text: equality, slices of a prefix, `strip` and `upper`.
use Prim.Native.Nat.{ℕ, zero, suc, ◌+◌, ◌-◌, ◌≤◌}
use Prim.Native.Char.{code}
use Prim.Native.String.{String}
use mathlib.Core.Path.{◌≡◌, refl}
use mathlib.Core.Bool.{Bool, true, false, ◌&&◌, ◌||◌}
use mathlib.Core.List.{List, [], ◌∷◌, map, reverse}
use native.Mathlib.Omega.{arith}
use algo_dollar.Base.Tests.{ltb, leb, nat_eq, if◌then◌else◌}

-- The code points of a text.
abbrev pub codes : String → List ℕ
codes String.[] = []
codes (String.◌∷◌ c s) = code c ∷ codes s

-- `s[:n]`, counted in characters as Python counts.
abbrev pub take_text : ℕ → String → String
take_text zero s = ""
take_text (suc n) String.[] = ""
take_text (suc n) (String.◌∷◌ c s) = String.◌∷◌ c (take_text n s)

-- `bool(s)` of a text
abbrev pub is_nonempty : String → Bool
is_nonempty String.[] = false
is_nonempty (String.◌∷◌ _ _) = true

-- `a or b` of two texts
abbrev pub or_text : String → String → String
or_text String.[] b = b
or_text (String.◌∷◌ c s) b = String.◌∷◌ c s

-- `len(s)`, in characters
abbrev pub text_length : String → ℕ
text_length String.[] = 0
text_length (String.◌∷◌ _ s) = suc (text_length s)

pub text_length-take_text : (n : ℕ) (s : String) → text_length (take_text n s) ≤ n
text_length-take_text zero s = omega arith
text_length-take_text (suc n) String.[] = omega arith
text_length-take_text (suc n) (String.◌∷◌ c s) = omega (arith, text_length-take_text n s)

-- The blanks that `str.strip` takes off, among the ASCII characters.
abbrev pub is_blank : ℕ → Bool
is_blank c = nat_eq c 32 || (leb 9 c && leb c 13) || (leb 28 c && leb c 31)

abbrev pub skip_blanks : List ℕ → List ℕ
skip_blanks [] = []
skip_blanks (c ∷ cs) = let rest = skip_blanks cs in if is_blank c then rest else c ∷ cs

-- `s.strip()`, on code points
unfoldable pub strip : List ℕ → List ℕ
strip cs = reverse (skip_blanks (reverse (skip_blanks cs)))

-- `upper()` of one ASCII character
abbrev pub upper_code : ℕ → ℕ
upper_code c = if leb b'a' c && leb c b'z' then c - 32 else c

unfoldable pub upper : List ℕ → List ℕ
upper cs = map upper_code cs

-- `lower()` of one ASCII character
abbrev pub lower_code : ℕ → ℕ
lower_code c = if leb b'A' c && leb c b'Z' then c + 32 else c

unfoldable pub lower : List ℕ → List ℕ
lower cs = map lower_code cs

-- `str.isascii`
abbrev pub is_ascii : String → Bool
is_ascii String.[] = true
is_ascii (String.◌∷◌ c s) = ltb (code c) 128 && is_ascii s

unfoldable pub codes_eq : List ℕ → List ℕ → Bool
codes_eq [] [] = true
codes_eq [] (_ ∷ _) = false
codes_eq (_ ∷ _) [] = false
codes_eq (a ∷ as_) (b ∷ bs) = nat_eq a b && codes_eq as_ bs

pub codes_eq-eq : (xs ys : List ℕ) → codes_eq xs ys ≡ true → xs ≡ ys
unfolding codes_eq
codes_eq-eq [] [] h = refl
codes_eq-eq [] (y ∷ ys) h = ground arith
codes_eq-eq (x ∷ xs) [] h = ground arith
codes_eq-eq (x ∷ xs) (y ∷ ys) h = ground (arith, codes_eq-eq xs ys)

pub codes_eq_refl : (xs : List ℕ) → codes_eq xs xs ≡ true
unfolding codes_eq
codes_eq_refl [] = refl
codes_eq_refl (x ∷ xs) = ground (arith, codes_eq_refl xs)
