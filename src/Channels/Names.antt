-- ===== src/Channels/Names.antt =====
-- isvalidchan of src/channel.c: the name of a channel is made lower case and checked. The characters
-- are those of the C locale.
use ape_server.Prelude.{
  ℕ, ◌≡◌, refl, ap, Bool, true, false, not, ◌&&◌, ◌||◌, [], ◌∷◌, arith, ltb, leb, ◌==◌,
  if◌then◌else◌, length, All, Bool-cases, inl, inr,
}
use ape_server.Prelude.Text.{CString, tolower, lower}

abbrev pub max_chan_len : ℕ
max_chan_len = 40

-- '_', '|', ':' and '.'
abbrev pub is_mark : ℕ → Bool
is_mark c = c == b'_' || c == b'|' || c == b':' || c == b'.'

abbrev pub isalnum : ℕ → Bool
isalnum c = (leb b'0' c && leb c b'9') || (leb b'a' c && leb c b'z') || (leb b'A' c && leb c b'Z')

-- The loop: the name as it is when the loop ends, and the result. No letter and no digit is a
-- punctuation character.
unfoldable pub check_name : CString → CString × Bool
check_name [] = ([], true)
check_name (c ∷ s) =
    let (rest, ok) = check_name s in
    if is_mark (tolower c)
    then (tolower c ∷ rest, ok)
    else if not (isalnum (tolower c))
    then (tolower c ∷ s, false)
    else (tolower c ∷ rest, ok)

-- a '*' in front stays
unfoldable pub check_star : CString → CString × Bool
unfolding check_name
check_star [] = ([], true)
check_star (c ∷ s) =
    let (rest, ok) = check_name s in if c == b'*' then (c ∷ rest, ok) else check_name (c ∷ s)

unfoldable pub isvalidchan : CString → CString × Bool
unfolding check_star
isvalidchan name = if ltb max_chan_len (length name) then (name, false) else check_star name

-- marks, digits and small letters
abbrev pub IsPlain : ℕ → Type 0
IsPlain c = (is_mark c || (leb b'0' c && leb c b'9') || (leb b'a' c && leb c b'z')) ≡ true

is_mark-IsPlain : (c : ℕ) → is_mark c ≡ true → IsPlain c
is_mark-IsPlain c e = ground (arith, e)

tolower-IsPlain : (c : ℕ) → not (isalnum (tolower c)) ≡ false → IsPlain (tolower c)
unfolding tolower
tolower-IsPlain c e = ground (arith, e)

-- A name that the loop accepts is made lower case, and has marks, digits and small letters alone.
pub check_name-IsPlain :
    (s : CString)
    → (check_name s).1 ≡ true
    → ((check_name s).0 ≡ lower s) × All IsPlain (check_name s).0
unfolding check_name lower
check_name-IsPlain [] e = (refl, tt)
check_name-IsPlain (c ∷ s) e = elim (Bool-cases (is_mark (tolower c))) [
  | inl m ↦
      let (low, plain) = check_name-IsPlain s (rw m at e) in
      rw m (ap (◌∷◌ (tolower c)) low, (is_mark-IsPlain (tolower c) m, plain))
  | inr m ↦ elim (Bool-cases (not (isalnum (tolower c)))) [
    | inl bad ↦ absurd (ground (arith, rw (m, bad) at e))
    | inr good ↦
        let (low, plain) = check_name-IsPlain s (rw (m, good) at e) in
        rw (m, good) (ap (◌∷◌ (tolower c)) low, (tolower-IsPlain c good, plain))
  ]
]
