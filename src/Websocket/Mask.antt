-- ===== src/Websocket/Mask.antt =====
-- Exclusive or with a key twice gives the byte back.
use Prim.Native.Nat.{digits, bit_xor-bitwise, differ}
use ape_server.Prelude.{
  ap, sym, ◌∙◌, leb, leb→le, Bool-cases, inl, inr, ℕ, zero, suc, ◌+◌, ◌*◌, ◌/◌, ◌%◌, ◌≤◌, ◌<◌, ◌≡◌,
  refl, arith, bit_xor,
}

-- The first number is a bound on the digits to go; a larger bound gives the same.
xor_within : ℕ → ℕ → ℕ → ℕ
xor_within bound a b = digits (λ d. d) differ bound a b

xor_within-suc : (bound a b : ℕ) → a ≤ bound → xor_within (suc bound) a b ≡ xor_within bound a b
unfolding xor_within
xor_within-suc bound zero b small = by_zero bound
  where
    by_zero : (m : ℕ) → b ≡ digits (λ d. d) differ m 0 b
    by_zero zero = refl
    by_zero (suc m) = refl
xor_within-suc zero (suc a) b small = absurd (omega (arith, small))
xor_within-suc (suc bound) (suc a) b small =
    let half = xor_within-suc bound (suc a / 2) (b / 2) (omega (arith, small)) in
    ap (λ m. m * 2 + differ (suc a % 2) (b % 2)) half

xor_within-bit_xor : (bound a b : ℕ) → a ≤ bound → xor_within bound a b ≡ bit_xor a b
unfolding xor_within
xor_within-bit_xor zero a b small =
    let none_left : a ≡ 0 = omega (arith, small) in rw none_left (sym (bit_xor-bitwise 0 b))
xor_within-bit_xor (suc bound) a b small = elim (Bool-cases (leb a bound)) [
  | inl fits ↦
      let le = leb→le a bound fits in xor_within-suc bound a b le ∙ xor_within-bit_xor bound a b le
  | inr tight ↦
      let same : a ≡ suc bound = ground (arith, tight, small) in
      rw same (sym (bit_xor-bitwise (suc bound) b))
]

bit_xor_step : (a b : ℕ) → bit_xor a b ≡ bit_xor (a / 2) (b / 2) * 2 + differ (a % 2) (b % 2)
unfolding xor_within
bit_xor_step zero b =
    let whole : bit_xor 0 b ≡ b = bit_xor-bitwise 0 b in
    let half : bit_xor 0 (b / 2) ≡ b / 2 = bit_xor-bitwise 0 (b / 2) in omega (arith, whole, half)
bit_xor_step (suc a) b =
    bit_xor-bitwise (suc a) b
    ∙ ap (λ m. m * 2 + differ (suc a % 2) (b % 2))
        (xor_within-bit_xor a (suc a / 2) (b / 2) (omega arith))

differ-small : (x y : ℕ) → x < 2 → y < 2 → differ x y < 2
differ-small zero y p q = q
differ-small (suc x) zero p q = p
differ-small (suc zero) (suc zero) p q = omega arith
differ-small (suc (suc x)) (suc y) p q = absurd (omega arith)
differ-small (suc zero) (suc (suc y)) p q = absurd (omega arith)

differ_twice : (x y : ℕ) → x < 2 → y < 2 → differ (differ x y) y ≡ x
differ_twice zero zero p q = refl
differ_twice zero (suc zero) p q = refl
differ_twice (suc zero) zero p q = refl
differ_twice (suc zero) (suc zero) p q = refl
differ_twice (suc (suc x)) y p q = absurd (omega arith)
differ_twice zero (suc (suc y)) p q = absurd (omega arith)
differ_twice (suc zero) (suc (suc y)) p q = absurd (omega arith)

-- the digits of the result
bit_xor-half : (a b : ℕ) → bit_xor a b / 2 ≡ bit_xor (a / 2) (b / 2)
bit_xor-half a b =
    omega (arith, bit_xor_step a b, differ-small (a % 2) (b % 2) (omega arith) (omega arith))

bit_xor-digit : (a b : ℕ) → bit_xor a b % 2 ≡ differ (a % 2) (b % 2)
bit_xor-digit a b =
    omega (arith, bit_xor_step a b, differ-small (a % 2) (b % 2) (omega arith) (omega arith))

bit_xor_twice_half :
    (a b : ℕ) → bit_xor (bit_xor (a / 2) (b / 2)) (b / 2) ≡ a / 2 → bit_xor (bit_xor a b) b ≡ a
bit_xor_twice_half a b h = omega (
  arith,
  rw (bit_xor-half a b, bit_xor-digit a b) at (bit_xor_step (bit_xor a b) b),
  differ_twice (a % 2) (b % 2) (omega arith) (omega arith),
  h,
)

bit_xor_twice_fuel : (n a b : ℕ) → a + b ≤ n → bit_xor (bit_xor a b) b ≡ a
bit_xor_twice_fuel zero zero zero h = refl
bit_xor_twice_fuel zero (suc a) b h = absurd (omega arith)
bit_xor_twice_fuel zero zero (suc b) h = absurd (omega arith)
bit_xor_twice_fuel (suc n) zero zero h = refl
bit_xor_twice_fuel (suc n) a b h =
    bit_xor_twice_half a b (bit_xor_twice_fuel n (a / 2) (b / 2) (omega arith))

pub bit_xor_twice : (a b : ℕ) → bit_xor (bit_xor a b) b ≡ a
bit_xor_twice a b = bit_xor_twice_fuel (a + b) a b (omega arith)
