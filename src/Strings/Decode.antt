-- ===== src/Strings/Decode.antt =====
-- Escapes: what hex2int reads, what urldecode lets through, and that it undoes an encoding.
use ape_server.Prelude.{
  ℕ, zero, suc, ◌+◌, ◌-◌, ◌/◌, ◌%◌, ◌≤◌, ◌<◌, ◌*◌, ◌++◌, ◌≡◌, refl, ap, ◌∙◌, arith, Bool, true,
  false, ◌&&◌, ◌||◌, not, Option, none, some, [], ◌∷◌, ◌==◌, ltb, leb, ==_iff, Bool-cases,
  Option-cases, inl, inr, if◌then◌else◌, All, length,
}
use ape_server.Prelude.Text.{CString}
use ape_server.Strings.{hex2int, escape, urldecode}

-- whether a test holds of the numbers from 0 up to a bound, found by evaluation
holds_to : (ℕ → Bool) → ℕ → Bool
holds_to test zero = true
holds_to test (suc bound) = if test bound then holds_to test bound else false

holds_at :
    (test : ℕ → Bool) (bound : ℕ) → holds_to test bound ≡ true → (c : ℕ) → c < bound → test c ≡ true
unfolding holds_to
holds_at test zero all c below = absurd (omega (arith, below))
holds_at test (suc bound) all c below = elim (Bool-cases (test bound)) [
  | inr fails ↦ absurd (ground (arith, rw fails at all))
  | inl last ↦ elim (Bool-cases (c == bound)) [
    | inl same ↦ ground (arith, same, last)
    | inr other ↦ holds_at test bound (rw last at all) c (ground (arith, other, below))
  ]
]

-- the value of a digit, 255 for what is none
unfoldable pub hex_value : ℕ → ℕ
hex_value c =
    if leb 48 c && leb c 57
    then c - 48
    else if leb 65 c && leb c 70
    then c - 55
    else if leb 97 c && leb c 102
    then c - 87
    else 255

hex_table : holds_to (λ c. hex2int c == hex_value c) 256 ≡ true
unfolding holds_to hex2int hex_value
hex_table = refl

-- hex2int, whose arithmetic wraps at 256, gives the value of each of the digits 0-9, A-F and a-f,
-- and 255 for every other byte.
pub hex2int-hex_value : (c : ℕ) → c < 256 → hex2int c ≡ hex_value c
hex2int-hex_value c h =
    (==_iff (hex2int c) (hex_value c)).0
      (holds_at (λ d. hex2int d == hex_value d) 256 hex_table c h)

-- neither a control character nor DEL
abbrev pub IsPrintable : ℕ → Type 0
IsPrintable c = (32 ≤ c) × (c == 127 ≡ false)

-- the byte of an escape
abbrev IsEscaped : Option ℕ → Type 0
IsEscaped none = Unit
IsEscaped (some c) = IsPrintable c

escape-IsEscaped : (a b : ℕ) → IsEscaped (escape a b)
unfolding escape
escape-IsEscaped a b = elim (Bool-cases (hex2int a == 255)) [
  | inl bad ↦ rw (escape, bad) tt
  | inr high ↦ elim (Bool-cases (hex2int b == 255)) [
    | inl bad ↦ rw (escape, high, bad) tt
    | inr low ↦ rw (escape, high, low) (printed ((hex2int a * 16 + hex2int b) % 256))
  ]
]
  where
    printed : (c : ℕ) → IsPrintable (if ltb c 32 || c == 127 then 95 else c)
    printed c = elim (Bool-cases (ltb c 32 || c == 127)) [
      | inl bad ↦ rw bad (omega arith, refl)
      | inr good ↦ rw good (ground (arith, good), ground (arith, good))
    ]

-- No control character comes out of urldecode that was not in the string: no escape gives a NUL, a
-- line end or a DEL.
pub urldecode-IsPrintable : (s : CString) → All IsPrintable s → All IsPrintable (urldecode s)
unfolding urldecode
urldecode-IsPrintable [] h = tt
urldecode-IsPrintable (c ∷ []) h = h
urldecode-IsPrintable (c ∷ d ∷ []) h = h
urldecode-IsPrintable (c ∷ a ∷ b ∷ s) (hc, h) =
    let plain = urldecode-IsPrintable (a ∷ b ∷ s) h in
    let cut = urldecode-IsPrintable s h.1.1 in
    elim (Bool-cases (c == 37)) [
      | inr e ↦ rw e (hc, plain)
      | inl e ↦ elim (Option-cases (escape a b)) [
        | inl bad ↦ rw (e, bad) (hc, plain)
        | inr (d, good) ↦ rw (e, good) (rw good at (escape-IsEscaped a b), cut)
      ]
    ]

pub length-urldecode : (s : CString) → length (urldecode s) ≤ length s
unfolding urldecode
length-urldecode [] = omega arith
length-urldecode (c ∷ []) = omega arith
length-urldecode (c ∷ d ∷ []) = omega arith
length-urldecode (c ∷ a ∷ b ∷ s) =
    let plain = length-urldecode (a ∷ b ∷ s) in
    let cut = length-urldecode s in
    elim (Bool-cases (c == 37)) [
      | inr e ↦ rw e (omega (arith, plain))
      | inl e ↦ elim (Option-cases (escape a b)) [
        | inl bad ↦ rw (e, bad) (omega (arith, plain))
        | inr (d, good) ↦ rw (e, good) (omega (arith, cut))
      ]
    ]

-- A client's encoding: some bytes as they are, the others as two digits behind a '%'.
hex_digit : ℕ → ℕ
hex_digit n = if ltb n 10 then 48 + n else 55 + n

unfoldable pub percent : ℕ → CString
unfolding hex_digit
percent c = 37 ∷ hex_digit (c / 16) ∷ hex_digit (c % 16) ∷ []

unfoldable pub encode_uri : (ℕ → Bool) → CString → CString
unfolding percent
encode_uri plain [] = []
encode_uri plain (c ∷ s) =
    let rest = encode_uri plain s in
    if plain c && not (c == 37) then c ∷ rest else percent c ++ rest

digit_table : holds_to (λ n. hex2int (hex_digit n) == n) 16 ≡ true
unfolding holds_to hex2int hex_digit
digit_table = refl

hex2int-hex_digit : (n : ℕ) → n < 16 → hex2int (hex_digit n) ≡ n
hex2int-hex_digit n h =
    (==_iff (hex2int (hex_digit n)) n).0
      (holds_at (λ d. hex2int (hex_digit d) == d) 16 digit_table n h)

escape-hex_digit :
    (c : ℕ) → c < 256 → IsPrintable c → escape (hex_digit (c / 16)) (hex_digit (c % 16)) ≡ some c
unfolding escape
escape-hex_digit c h (lo, del) =
    let high : (c / 16 == 255) ≡ false = ground arith in
    let low : (c % 16 == 255) ≡ false = ground arith in
    let whole : (c / 16 * 16 + c % 16) % 256 ≡ c = omega arith in
    let printable : (ltb c 32 || c == 127) ≡ false = ground (arith, del) in
    rw
      (
        escape,
        hex2int-hex_digit (c / 16) (omega arith),
        hex2int-hex_digit (c % 16) (omega arith),
        high,
        low,
        whole,
        printable,
      )
      refl

-- an escape in front of a string, whatever follows
urldecode-percent :
    (c : ℕ) (s : CString) → c < 256 → IsPrintable c → urldecode (percent c ++ s) ≡ c ∷ urldecode s
unfolding urldecode percent
urldecode-percent c s h p = rw (escape-hex_digit c h p) refl

urldecode-cons : (c : ℕ) (s : CString) → (c == 37) ≡ false → urldecode (c ∷ s) ≡ c ∷ urldecode s
unfolding urldecode
urldecode-cons c [] e = refl
urldecode-cons c (a ∷ []) e = refl
urldecode-cons c (a ∷ b ∷ s) e = rw e refl

-- Whatever bytes but '%' a client leaves as they are, a string of printable bytes that it encodes is
-- what urldecode makes of the encoding.
pub urldecode-encode_uri :
    (plain : ℕ → Bool) (s : CString)
    → All (λ c. (c < 256) × IsPrintable c) s
    → urldecode (encode_uri plain s) ≡ s
unfolding encode_uri urldecode
urldecode-encode_uri plain [] h = refl
urldecode-encode_uri plain (c ∷ s) ((h, p), hs) =
    let rest = urldecode-encode_uri plain s hs in
    elim (Bool-cases (plain c && not (c == 37))) [
      | inl e ↦
          let unlike : (c == 37) ≡ false = ground (arith, e) in
          rw e (urldecode-cons c (encode_uri plain s) unlike ∙ ap (λ t. c ∷ t) rest)
      | inr e ↦ rw e (urldecode-percent c (encode_uri plain s) h p ∙ ap (λ t. c ∷ t) rest)
    ]
