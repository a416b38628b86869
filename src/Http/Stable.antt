-- ===== src/Http/Stable.antt =====
-- What process_http takes from a line does not depend on what has come behind the line.
use ape_server.Prelude.{
  ℕ, zero, suc, ◌+◌, ◌-◌, ◌*◌, ◌<◌, ◌≡◌, refl, ap, arith, Bool, true, false, not, ◌&&◌, ◌||◌,
  Bool-cases, Option-cases, inl, inr, none, some, [], ◌∷◌, ◌++◌, ◌==◌, ltb, leb, length, drop,
  count, All,
}
use ape_server.Prelude.Text.{CString, casecmp, str_eq, lower, tolower}
use ape_server.Strings.{seof, next_place}
use ape_server.Http.Response.{ncasecmp}
use ape_server.Http.Header.{
  is_end, is_bad, is_blank, head, scan_value, scan_key, parse_header_line, digits_from, atoi,
}

-- a line feed is in the string
abbrev pub HasLine : CString → Type 0
HasLine s = 0 < count 10 s

-- none is in a word
abbrev pub Word : CString → Type 0
Word w = All (λ c. (c == 10) ≡ false) w

pub seof-HasLine : (s : CString) (n : ℕ) → seof s 10 ≡ some n → HasLine s
unfolding seof count
seof-HasLine [] n e = cc
seof-HasLine (c ∷ s) n e = elim (Bool-cases (c == 10)) [
  | inl last ↦ ground (arith, last)
  | inr more ↦ elim (Option-cases (seof s 10)) [
    | inl no_line ↦ absurd (no_place (rw (more, no_line) at e))
    | inr (m, line) ↦ omega (arith, seof-HasLine s m line)
  ]
]
  where
    no_place : none ≡ some n → ⊥
    no_place e = cc

and_right : (x y : Bool) → (x && y) ≡ true → y ≡ true
and_right true y e = e
and_right false y e = cc

module _ (t : CString) where
  pub seof-append : (s : CString) → HasLine s → seof (s ++ t) 10 ≡ seof s 10
  unfolding seof count
  seof-append [] h = absurd (omega (arith, h))
  seof-append (c ∷ s) h = elim (Bool-cases (c == 10)) [
    | inl e ↦ rw e refl
    | inr e ↦ rw e (ap next_place (seof-append s (ground (arith, h, e))))
  ]

  pub head-append : (s : CString) → HasLine s → head (s ++ t) ≡ head s
  unfolding count
  head-append [] h = absurd (omega (arith, h))
  head-append (c ∷ s) h = refl

  scan_value-append : (i : ℕ) (s : CString) → HasLine s → scan_value i (s ++ t) ≡ scan_value i s
  unfolding scan_value count
  scan_value-append i [] h = absurd (omega (arith, h))
  scan_value-append i (c ∷ s) h = elim (Bool-cases (leb 1024 i || is_end c)) [
    | inl e ↦ rw e refl
    | inr e ↦ rw e (ap (λ v. c ∷ v) (scan_value-append (i + 1) s (ground (arith, h, e))))
  ]

  drop_one-append :
      (s : CString)
      → HasLine s
      → (head s == 32) ≡ true
      → (drop 1 (s ++ t) ≡ drop 1 s ++ t) × HasLine (drop 1 s)
  unfolding count
  drop_one-append [] h e = absurd (omega (arith, h))
  drop_one-append (c ∷ s) h e = (refl, ground (arith, h, e))

  scan_key-append :
      (i : ℕ) (key s : CString) → HasLine s → scan_key i key (s ++ t) ≡ scan_key i key s
  unfolding scan_key count
  scan_key-append i key [] h = absurd (omega (arith, h))
  scan_key-append i key (c ∷ s) h = elim (Bool-cases (is_end c)) [
    | inl e ↦ rw e refl
    | inr e ↦
        let more : HasLine s = ground (arith, h, e) in
        let same : is_bad i c (s ++ t) ≡ is_bad i c s =
          ap (λ d. (i == 0 && (c == 58 || c == 32)) || (c == 58 && not (d == 32)) || ltb 63 i)
            (head-append s more) in
        elim (Bool-cases (is_bad i c s)) [
          | inl bad ↦ rw (e, same, bad) refl
          | inr good ↦ elim (Bool-cases (c == 58)) [
            | inr other ↦ rw (e, same, good, other) (scan_key-append (i + 1) (key ++ c ∷ []) s more)
            | inl colon ↦
                let blank : (head s == 32) ≡ true = ground (arith, good, colon) in
                let (there, line) = drop_one-append s more blank in
                rw (e, same, good, colon, there)
                  (ap (λ v. some (record { key = key; value = v }))
                    (scan_value-append (i + 2) (drop 1 s) line))
          ]
        ]
  ]

  pub parse_header_line-append :
      (s : CString) → HasLine s → parse_header_line (s ++ t) ≡ parse_header_line s
  unfolding parse_header_line
  parse_header_line-append s h = scan_key-append 0 [] s h

  digits_from-append : (n : ℕ) (s : CString) → HasLine s → digits_from n (s ++ t) ≡ digits_from n s
  unfolding digits_from count
  digits_from-append n [] h = absurd (omega (arith, h))
  digits_from-append n (c ∷ s) h = elim (Bool-cases (leb 48 c && leb c 57)) [
    | inl digit ↦ rw digit (digits_from-append (n * 10 + (c - 48)) s (ground (arith, h, digit)))
    | inr other ↦ rw other refl
  ]

  -- a number that begins on the line
  pub atoi-append : (s : CString) → HasLine s → is_blank (head s) ≡ false → atoi (s ++ t) ≡ atoi s
  unfolding atoi count digits_from
  atoi-append [] h e = absurd (omega (arith, h))
  atoi-append (c ∷ s) h e =
      let more : HasLine s = ground (arith, h, e) in
      let all = digits_from-append 0 (c ∷ s) h in
      elim (Bool-cases (c == 43)) [
        | inl plus ↦ rw (e, plus, digits_from-append 0 s more) refl
        | inr no_plus ↦ elim (Bool-cases (c == 45)) [
          | inl minus ↦ rw (e, no_plus, minus, digits_from-append 0 s more) refl
          | inr number ↦ rw (e, no_plus, number) (ap (λ d. (true, d)) all)
        ]
      ]

  tolower_word : (a : ℕ) → (a == 10) ≡ false → (tolower a == tolower 10) ≡ false
  unfolding tolower
  tolower_word a e = ground (arith, e)

  pub ncasecmp-append :
      (w s : CString) (n : ℕ) → Word w → HasLine s → ncasecmp w (s ++ t) n ≡ ncasecmp w s n
  unfolding ncasecmp casecmp str_eq lower count
  ncasecmp-append w s zero word h = refl
  ncasecmp-append w [] (suc n) word h = absurd (omega (arith, h))
  ncasecmp-append [] (c ∷ s) (suc n) word h = refl
  ncasecmp-append (a ∷ w) (c ∷ s) (suc n) (e, word) h = elim (Bool-cases (c == 10)) [
    | inl last ↦ let same : c ≡ 10 = ground (arith, last) in rw (same, tolower_word a e) refl
    | inr more ↦
        ap (λ b. (tolower a == tolower c) && b)
          (ncasecmp-append w s n word (ground (arith, h, more)))
  ]

  -- What stands behind a word that a line begins with is on the line still.
  pub drop-ncasecmp :
      (w s : CString)
      → Word w
      → HasLine s
      → ncasecmp w s (length w) ≡ true
      → (drop (length w) (s ++ t) ≡ drop (length w) s ++ t) × HasLine (drop (length w) s)
  unfolding ncasecmp casecmp str_eq lower count
  drop-ncasecmp [] s word h e = (refl, h)
  drop-ncasecmp (a ∷ w) [] word h e = absurd (omega (arith, h))
  drop-ncasecmp (a ∷ w) (c ∷ s) (f, word) h e = elim (Bool-cases (c == 10)) [
    | inl last ↦
        let same : c ≡ 10 = ground (arith, last) in
        absurd (apart (rw (same, tolower_word a f) at e))
    | inr more ↦
        drop-ncasecmp w s word (ground (arith, h, more)) (and_right (tolower a == tolower c) _ e)
  ]
    where
      apart : false ≡ true → ⊥
      apart e = cc
