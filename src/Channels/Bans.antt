-- ===== src/Channels/Bans.antt =====
-- getban, rmban and rmallban of src/channel.c: the addresses that are banned from a channel, each
-- until its time. The clock is read once for a call.
use ape_server.Prelude.{
  ℕ, ◌≡◌, refl, ap, ◌||◌, Option, none, some, List, [], ◌∷◌, ltb, if◌then◌else◌, Bool-cases, inl,
  inr,
}
use ape_server.Prelude.Text.{CString, str_eq, eq_of_str_eq, str_eq-other}
use ape_server.Channels.{Banned}

-- What is left of the list, and the ban that is found. Past that one nothing is looked at.
unfoldable pub getban : ℕ → CString → List Banned → List Banned × Option Banned
getban now ip [] = ([], none)
getban now ip (b ∷ bs) =
    let (left, found) = getban now ip bs in
    if ltb b.expire now
    then (left, found)
    else if str_eq b.ip ip
    then (b ∷ bs, some b)
    else (b ∷ left, found)

unfoldable pub rmban : ℕ → CString → List Banned → List Banned
rmban now ip [] = []
rmban now ip (b ∷ bs) =
    if ltb b.expire now || str_eq b.ip ip then rmban now ip bs else b ∷ rmban now ip bs

unfoldable pub rmallban : List Banned → List Banned
rmallban bs = []

-- the bans that are not over
unfoldable pub current : ℕ → List Banned → List Banned
current now [] = []
current now (b ∷ bs) = if ltb b.expire now then current now bs else b ∷ current now bs

-- the first for the address
unfoldable pub ban_of : CString → List Banned → Option Banned
ban_of ip [] = none
ban_of ip (b ∷ bs) = if str_eq b.ip ip then some b else ban_of ip bs

-- getban finds the first ban for the address that is not over, and takes out of the list only such
-- as are over.
pub getban-current :
    (now : ℕ) (ip : CString) (bs : List Banned)
    → ((getban now ip bs).1 ≡ ban_of ip (current now bs))
      × (current now (getban now ip bs).0 ≡ current now bs)
unfolding getban current ban_of
getban-current now ip [] = (refl, refl)
getban-current now ip (b ∷ bs) =
    let (found, left) = getban-current now ip bs in
    elim (Bool-cases (ltb b.expire now)) [
      | inl over ↦ rw over (found, left)
      | inr on ↦ elim (Bool-cases (str_eq b.ip ip)) [
        | inl same ↦ rw (on, same) (refl, rw on refl)
        | inr other ↦ rw (on, other) (found, rw on (ap (◌∷◌ b) left))
      ]
    ]

-- After rmban the address has no ban, and every other address has the bans that it had, but for those
-- that are over.
pub getban-rmban :
    (now : ℕ) (ip ip' : CString) (bs : List Banned)
    → (getban now ip' (rmban now ip bs)).1 ≡ (if str_eq ip ip' then none else (getban now ip' bs).1)
unfolding getban rmban
getban-rmban now ip ip' [] = elim (Bool-cases (str_eq ip ip')) [ inl e ↦ rw e | inr e ↦ rw e ]
getban-rmban now ip ip' (b ∷ bs) = elim (Bool-cases (ltb b.expire now)) [
  | inl over ↦ rw over (getban-rmban now ip ip' bs)
  | inr on ↦ elim (Bool-cases (str_eq b.ip ip)) [
    | inl same ↦
        let e : str_eq b.ip ip' ≡ str_eq ip ip' =
          ap (λ q. str_eq q ip') (eq_of_str_eq b.ip ip same) in
        elim (Bool-cases (str_eq ip ip')) [
          | inl h ↦ rw (on, same, h) (rw h at (getban-rmban now ip ip' bs))
          | inr h ↦ rw (on, same, h, e, h) (rw h at (getban-rmban now ip ip' bs))
        ]
    | inr other ↦ elim (Bool-cases (str_eq b.ip ip')) [
      | inl h ↦ rw (on, other, getban, on, h, str_eq-other b.ip ip ip' other h) refl
      | inr h ↦ rw (on, other, getban, on, h) (getban-rmban now ip ip' bs)
    ]
  ]
]
