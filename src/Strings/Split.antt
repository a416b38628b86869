-- ===== src/Strings/Split.antt =====
-- explode of src/utils.c: the pieces of a string between its separators.
use ape_server.Prelude.{
  ℕ, ◌+◌, ◌≤◌, ◌<◌, ◌≡◌, refl, ap, Bool, true, false, not, ◌&&◌, List, [], ◌∷◌, arith, ◌==◌,
  if◌then◌else◌, length, count, Bool-cases, inl, inr,
}
use ape_server.Prelude.Text.{CString}

-- whether a token starts here: *(input + 1) != '\0' && *(input + 1) != split
unfoldable pub starts_token : ℕ → CString → Bool
starts_token split [] = false
starts_token split (c ∷ s) = not (c == split)

-- The rest of the token at tP[i], and the tokens behind it. The token ends at the separator, which
-- becomes its NUL; what is read once `limit` is reached stays as it is.
unfoldable pub explode_from : ℕ → ℕ → ℕ → CString → CString × List CString
unfolding starts_token
explode_from split limit i [] = ([], [])
explode_from split limit i (c ∷ s) = elim (c == split && starts_token split s) [
  | true ↦
      let next = explode_from split limit (i + 1) s in
      ([], if i + 2 == limit then s ∷ [] else next.0 ∷ next.1)
  | false ↦
      let here = explode_from split limit i s in
      if i + 1 == limit
      then (if c == split then [] else c ∷ s, [])
      else (if c == split then [] else c ∷ here.0, here.1)
]

-- tP[0] to tP[i], where i is what the function returns
unfoldable pub explode : ℕ → CString → ℕ → List CString
unfolding explode_from
explode split input limit = let (first, others) = explode_from split limit 0 input in first ∷ others

length-explode_from :
    (split limit i : ℕ) (s : CString)
    → i + 1 < limit
    → i + 1 + length (explode_from split limit i s).1 ≤ limit
unfolding explode_from
length-explode_from split limit i [] lt = omega (arith, lt)
length-explode_from split limit i (c ∷ s) lt =
    elim (Bool-cases (c == split && starts_token split s)) [
      | inl e ↦ elim (Bool-cases (i + 2 == limit)) [
        | inl full ↦ rw (explode_from, e, full) (ground (arith, full))
        | inr room ↦
            rw (explode_from, e, room)
              (ground
                (arith, room, length-explode_from split limit (i + 1) s (ground (arith, room))))
      ]
      | inr e ↦ elim (Bool-cases (i + 1 == limit)) [
        | inl full ↦ rw (explode_from, e, full) (omega (arith, lt))
        | inr room ↦ rw (explode_from, e, room) (length-explode_from split limit i s lt)
      ]
    ]

-- With a limit of at least two tokens, explode writes no more tokens than the limit.
pub length-explode :
    (split limit : ℕ) (input : CString) → 1 < limit → length (explode split input limit) ≤ limit
unfolding explode
length-explode split limit input lt = omega (arith, length-explode_from split limit 0 input lt)

explode_from-whole :
    (split limit : ℕ) (s : CString) → count split s ≡ 0 → explode_from split limit 0 s ≡ (s, [])
unfolding explode_from count
explode_from-whole split limit [] none_there = refl
explode_from-whole split limit (c ∷ s) none_there =
    let other : (c == split) ≡ false = ground (arith, none_there) in
    let rest = explode_from-whole split limit s (ground (arith, none_there)) in
    elim (Bool-cases (0 + 1 == limit)) [
      | inl full ↦ rw (explode_from, other, full, other) refl
      | inr room ↦ rw (explode_from, other, room, other, rest) refl
    ]

-- A string without the separator is the only token.
pub explode-whole :
    (split limit : ℕ) (s : CString) → count split s ≡ 0 → explode split s limit ≡ s ∷ []
unfolding explode
explode-whole split limit s none_there =
    ap (λ r. r.0 ∷ r.1) (explode_from-whole split limit s none_there)
