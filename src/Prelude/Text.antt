-- ===== src/Prelude/Text.antt =====
-- C strings: the bytes before the terminating NUL. The functions of <string.h> and <ctype.h> that
-- the sources call, in the C locale.
use Prim.Native.Nat.{ℕ, ◌+◌}
use Prim.Native.Char.{code}
use Prim.Native.String.{String}
use mathlib.Core.Path.{◌≡◌, refl}
use mathlib.Core.Bool.{Bool, true, false, ◌&&◌}
use mathlib.Core.Logic.{inl, inr}
use mathlib.Core.List.{List, [], ◌∷◌}
use native.Mathlib.Omega.{arith}
use ape_server.Prelude.Tests.{Bool-cases, ◌==◌, leb, if◌then◌else◌}

abbrev pub CString : Type 0
CString = List ℕ

-- The code points of a text: its bytes, if it is ASCII.
abbrev pub codes : String → CString
codes String.[] = []
codes (String.◌∷◌ c s) = code c ∷ codes s

-- strcmp(a, b) == 0
unfoldable pub str_eq : CString → CString → Bool
str_eq [] [] = true
str_eq [] (b ∷ bs) = false
str_eq (a ∷ as') [] = false
str_eq (a ∷ as') (b ∷ bs) = a == b && str_eq as' bs

unfoldable pub tolower : ℕ → ℕ
tolower c = if leb b'A' c && leb c b'Z' then c + 32 else c

unfoldable pub lower : CString → CString
lower [] = []
lower (c ∷ s) = tolower c ∷ lower s

-- strcasecmp(a, b) == 0
unfoldable pub casecmp : CString → CString → Bool
casecmp a b = str_eq (lower a) (lower b)

pub str_eq_refl : (a : CString) → str_eq a a ≡ true
unfolding str_eq
str_eq_refl [] = refl
str_eq_refl (c ∷ a) = ground (arith, str_eq_refl a)

pub eq_of_str_eq : (a b : CString) → str_eq a b ≡ true → a ≡ b
unfolding str_eq
eq_of_str_eq [] [] h = refl
eq_of_str_eq [] (b ∷ bs) h = cc
eq_of_str_eq (a ∷ as') [] h = cc
eq_of_str_eq (a ∷ as') (b ∷ bs) h = ground (arith, eq_of_str_eq as' bs)

-- Who equals one string and not another sets them apart.
pub str_eq-other :
    (k key q : CString) → str_eq k key ≡ false → str_eq k q ≡ true → str_eq key q ≡ false
str_eq-other k key q e e' = elim (Bool-cases (str_eq key q)) [
  | inl same ↦ absurd (ground (arith, e, e', eq_of_str_eq key q same))
  | inr other ↦ other
]

pub casecmp_refl : (a : CString) → casecmp a a ≡ true
unfolding casecmp
casecmp_refl a = str_eq_refl (lower a)

-- Two strings that differ in case alone compare alike with any third.
pub casecmp_congr_left : (a b c : CString) → casecmp a b ≡ true → casecmp a c ≡ casecmp b c
unfolding casecmp
casecmp_congr_left a b c h = rw (eq_of_str_eq (lower a) (lower b) h)

pub casecmp_congr_right : (a b c : CString) → casecmp b c ≡ true → casecmp a b ≡ casecmp a c
unfolding casecmp
casecmp_congr_right a b c h = rw (eq_of_str_eq (lower b) (lower c) h)
