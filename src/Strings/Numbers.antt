-- ===== src/Strings/Numbers.antt =====
-- itos of src/utils.c: the decimal digits of an integer, from the last to the first.
use ape_server.Prelude.{
  ℕ, zero, suc, ◌+◌, ◌-◌, ◌*◌, ◌/◌, ◌%◌, ◌≤◌, ◌<◌, ◌^◌, ◌≡◌, ap, ◌∙◌, [], ◌∷◌, arith, ◌==◌,
  if◌then◌else◌, length, ltb, ◌++◌, append_assoc, sym, refl, false, Bool-cases, inl, inr,
}
use ape_server.Prelude.Text.{CString}

-- long long int
pub data ℤ : Type 0 where
  pos : ℕ → ℤ
  negsuc : ℕ → ℤ

abbrev pub magnitude : ℤ → ℕ
magnitude (pos n) = n
magnitude (negsuc n) = suc n

-- The loop that writes the digits before those that are written. A round divides the number by
-- ten, so the number itself is fuel enough.
unfoldable pub digits : ℕ → ℕ → CString → CString
digits zero n out = out
digits (suc f) n out =
    let shorter = digits f (n / 10) ((b'0' + n % 10) ∷ out) in if n == 0 then out else shorter

-- what stands in the buffer from the offset on that is returned
unfoldable pub itos : ℤ → CString
unfolding digits
itos (pos n) = digits n n []
itos (negsuc n) = b'-' ∷ digits (suc n) (suc n) []

-- the number that decimal digits stand for, read from the left
unfoldable pub read_decimal : ℕ → CString → ℕ
read_decimal n [] = n
read_decimal n (c ∷ s) = read_decimal (10 * n + (c - b'0')) s

negate : ℕ → ℤ
negate zero = pos 0
negate (suc n) = negsuc n

-- a decimal with its sign
unfoldable pub read_int : CString → ℤ
unfolding read_decimal negate
read_int [] = pos 0
read_int (c ∷ s) =
    if c == b'-' then negate (read_decimal 0 s) else pos (read_decimal (10 * 0 + (c - b'0')) s)

read_decimal-digits :
    (f n : ℕ) (out : CString) → n ≤ f → read_decimal 0 (digits f n out) ≡ read_decimal n out
unfolding digits read_decimal
read_decimal-digits zero n out le = ap (λ m. read_decimal m out) (omega arith)
read_decimal-digits (suc f) n out le = elim (Bool-cases (n == 0)) [
  | inl e ↦ rw e (ap (λ m. read_decimal m out) (ground (arith, e)))
  | inr e ↦ rw e (
      read_decimal-digits f (n / 10) ((b'0' + n % 10) ∷ out) (ground (arith, e, le))
      ∙ ap (λ m. read_decimal m out) (omega arith))
]

-- A number of at most k digits is written in k places.
pub length-digits :
    (f n k : ℕ) (out : CString) → n < 10 ^ k → length (digits f n out) ≤ k + length out
unfolding digits
length-digits zero n k out lt = omega arith
length-digits (suc f) n zero out lt = ground (arith, lt)
length-digits (suc f) n (suc k) out lt = elim (Bool-cases (n == 0)) [
  | inl e ↦ rw e (omega arith)
  | inr e ↦
      rw e (omega (arith, length-digits f (n / 10) k ((b'0' + n % 10) ∷ out) (omega (arith, lt))))
]

-- The decimal digits of a number of at most `f`, the last behind those of a tenth of it.
unfoldable pub numeral : ℕ → ℕ → CString
numeral zero n = (b'0' + n) ∷ []
numeral (suc f) n =
    let tens = numeral f (n / 10) in
    if ltb n 10 then (b'0' + n) ∷ [] else tens ++ (b'0' + n % 10) ∷ []

digits-zero : (f : ℕ) (out : CString) → digits f 0 out ≡ out
unfolding digits
digits-zero zero out = refl
digits-zero (suc f) out = refl

-- The digits that are written from the last to the first are those of the number.
pub digits-numeral : (f n : ℕ) (out : CString) → 0 < n → n ≤ f → digits f n out ≡ numeral f n ++ out
unfolding digits numeral
digits-numeral zero n out positive le = absurd (omega (arith, positive, le))
digits-numeral (suc f) n out positive le =
    let there : (n == 0) ≡ false = ground (arith, positive) in
    elim (Bool-cases (ltb n 10)) [
      | inl one ↦
          rw (there, one)
            (ap (λ m. digits f m ((b'0' + n % 10) ∷ out)) {x = n / 10} {y = 0} (ground (arith, one))
              ∙ digits-zero f ((b'0' + n % 10) ∷ out)
              ∙ ap (λ m. (b'0' + m) ∷ out) {x = n % 10} {y = n} (ground (arith, one)))
      | inr more ↦
          rw (there, more)
            (digits-numeral f (n / 10) ((b'0' + n % 10) ∷ out) (ground (arith, more))
                (omega (arith, le, positive))
              ∙ sym (append_assoc (numeral f (n / 10)) ((b'0' + n % 10) ∷ []) out))
    ]
