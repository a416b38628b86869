-- ===== src/Prelude/Counts.antt =====
-- Occurrences of a number in a list, sums over a range, and functions changed at one point.
use Prim.Native.Nat.{ℕ, zero, suc, ◌+◌, ◌<◌, ◌≤◌}
use mathlib.Core.Path.{◌≡◌, refl}
use mathlib.Core.List.{List, [], ◌∷◌, ◌++◌}
use mathlib.Core.Bool.{Bool, true, false}
use native.Mathlib.Omega.{arith}
use ape_server.Prelude.Tests.{◌==◌, if◌then◌else◌}

abbrev pub one_if : Bool → ℕ
one_if true = 1
one_if false = 0

-- How often a number stands in a list.
unfoldable pub count : ℕ → List ℕ → ℕ
count a [] = 0
count a (x ∷ xs) = one_if (a == x) + count a xs

pub count-append : (a : ℕ) (xs ys : List ℕ) → count a (xs ++ ys) ≡ count a xs + count a ys
unfolding count
count-append a [] ys = omega arith
count-append a (x ∷ xs) ys = omega (arith, count-append a xs ys)

-- The list without the first occurrence of a number.
unfoldable pub remove : ℕ → List ℕ → List ℕ
remove a [] = []
remove a (x ∷ xs) = if a == x then xs else x ∷ remove a xs

pub count-remove :
    (a b : ℕ) (xs : List ℕ) → 0 < count a xs → count b (remove a xs) + one_if (b == a) ≡ count b xs
unfolding count remove
count-remove a b [] h = absurd (omega arith)
count-remove a b (x ∷ xs) h = ground (arith, count-remove a b xs)

pub remove_absent : (a : ℕ) (xs : List ℕ) → count a xs ≡ 0 → remove a xs ≡ xs
unfolding count remove
remove_absent a [] h = refl
remove_absent a (x ∷ xs) h = ground (arith, remove_absent a xs)

-- A cell of an array, or a field of an object at an address, is written.
abbrev pub update {ℓ} : {A : Type ℓ} → (ℕ → A) → ℕ → A → ℕ → A
update f i v j = if i == j then v else f j

-- f 0 + ... + f (n - 1)
unfoldable pub sum_below : ℕ → (ℕ → ℕ) → ℕ
sum_below zero f = 0
sum_below (suc n) f = f n + sum_below n f

module _ (f g : ℕ → ℕ) where
  pub sum_below-congr : (n : ℕ) → ((j : ℕ) → f j ≡ g j) → sum_below n f ≡ sum_below n g
  unfolding sum_below
  sum_below-congr zero h = refl
  sum_below-congr (suc n) h = omega (arith, h n, sum_below-congr n h)

  -- Sums of functions that agree but at one place of the range.
  sum_below_beyond :
      (n i : ℕ) → n ≤ i → ((j : ℕ) → (i == j) ≡ false → f j ≡ g j) → sum_below n f ≡ sum_below n g
  unfolding sum_below
  sum_below_beyond zero i le h = refl
  sum_below_beyond (suc n) i le h = ground (arith, h n, sum_below_beyond n i (omega arith) h)

  pub sum_below-update :
      (n i : ℕ)
      → i < n
      → ((j : ℕ) → (i == j) ≡ false → f j ≡ g j)
      → sum_below n f + g i ≡ sum_below n g + f i
  unfolding sum_below
  sum_below-update zero i lt h = absurd (omega arith)
  sum_below-update (suc n) i lt h =
      ground (arith, h n, sum_below-update n i, λ (p : n ≤ i). sum_below_beyond n i p h)
