-- ===== src/HandleHttp/Keys.antt =====
-- The keys of the handshake of draft-hixie-76: their digits as a number, by the blanks among them.
use ape_server.Prelude.{
  ℕ, ◌+◌, ◌-◌, ◌*◌, ◌/◌, ◌%◌, ◌^◌, ◌≡◌, refl, ap, sym, ◌∙◌, arith, ◌&&◌, Bool, true, false, [], ◌∷◌,
  ◌==◌, leb, count, one_if, if◌then◌else◌, Bool-cases, inl, inr,
}
use ape_server.Prelude.Text.{CString}
use ape_server.Strings.Numbers.{read_decimal}
use ape_server.HandleHttp.{key_loop, ws_compute_key_r76}

abbrev is_digit : ℕ → Bool
is_digit c = leb 48 c && leb c 57

-- the digits among the bytes of a key
unfoldable pub digits_of : CString → CString
digits_of [] = []
digits_of (c ∷ s) = if is_digit c then c ∷ digits_of s else digits_of s

key_loop-digit :
    (n spaces c : ℕ) (s : CString)
    → is_digit c ≡ true
    → key_loop (n % 2 ^ 64) spaces (c ∷ s) ≡ key_loop ((10 * n + (c - 48)) % 2 ^ 64) spaces s
unfolding key_loop
key_loop-digit n spaces c s digit = rw digit (
    ap (λ m. key_loop m spaces s) {x = (n % 2 ^ 64 * 10 + (c - 48)) % 2 ^ 64}
      {y = (10 * n + (c - 48)) % 2 ^ 64} (omega arith))

key_loop-other :
    (n spaces c : ℕ) (s : CString)
    → is_digit c ≡ false
    → key_loop n spaces (c ∷ s) ≡ key_loop n (spaces + one_if (32 == c)) s
unfolding key_loop
key_loop-other n spaces c s other = rw other (ap (λ m. key_loop n m s) (ground arith))

count-digit : (c : ℕ) (s : CString) → is_digit c ≡ true → count 32 (c ∷ s) ≡ count 32 s
unfolding count
count-digit c s digit = ground (arith, digit)

key_loop-read :
    (n spaces : ℕ) (s : CString)
    → key_loop (n % 2 ^ 64) spaces s ≡ (read_decimal n (digits_of s) % 2 ^ 64, spaces + count 32 s)
unfolding key_loop digits_of count read_decimal
key_loop-read n spaces [] = ap (λ m. (n % 2 ^ 64, m)) (omega arith)
key_loop-read n spaces (c ∷ s) = elim (Bool-cases (is_digit c)) [
  | inl digit ↦
      key_loop-digit n spaces c s digit
      ∙ key_loop-read (10 * n + (c - 48)) spaces s
      ∙ rw digit (
          ap (λ m. (read_decimal (10 * n + (c - 48)) (digits_of s) % 2 ^ 64, spaces + m))
            (sym (count-digit c s digit)))
  | inr other ↦
      key_loop-other (n % 2 ^ 64) spaces c s other
      ∙ key_loop-read n (spaces + one_if (32 == c)) s
      ∙ rw other (ap (λ m. (read_decimal n (digits_of s) % 2 ^ 64, m)) (omega arith))
]

-- The number of a key of draft 76 is what its digits read, left to right and modulo 2 ^ 64,
-- divided by how many blanks it has, and is 0 for a key without a blank.
pub ws_compute_key_r76-read :
    (key : CString)
    → ws_compute_key_r76 key
      ≡ (if count 32 key == 0 then 0 else read_decimal 0 (digits_of key) % 2 ^ 64 / count 32 key)
unfolding ws_compute_key_r76
ws_compute_key_r76-read key =
    rw
      (key_loop-read 0 0 key
        ∙ ap (λ m. (read_decimal 0 (digits_of key) % 2 ^ 64, m)) {x = 0 + count 32 key}
            {y = count 32 key} (omega arith))
      refl
