-- ===== src/Channels/Links.antt =====
-- Both records of who is on which channel, and what joining and leaving do to them.
use ape_server.Prelude.{
  ℕ, ◌+◌, ◌≤◌, ◌<◌, ◌≡◌, refl, ◌&&◌, Option, none, some, List, [], ◌∷◌, ◌==◌, ltb, remove, count,
  one_if, count-remove, arith, Bool-cases, inl, inr, ==_iff, ==_refl, ==_symm,
}
use ape_server.Channels.{Member, Channel, User, World, members, has, without, entered, quitted}

abbrev pub foot_of : Option User → List ℕ
foot_of none = []
foot_of (some u) = u.chan_foot

abbrev pub head_of : Option Channel → List ℕ
head_of none = []
head_of (some c) = members c.head

-- how often the user's list has the channel, and the channel's list the user
abbrev pub in_foot : World → ℕ → ℕ → ℕ
in_foot w user chan = count chan (foot_of (w.users user))

abbrev pub in_head : World → ℕ → ℕ → ℕ
in_head w user chan = count user (head_of (w.chans chan))

-- Each list has what the other has, and nothing twice.
pub record IsWorld (w : World) : Type 0 where
  pub agree : (user chan : ℕ) → in_foot w user chan ≡ in_head w user chan
  pub once : (user chan : ℕ) → in_foot w user chan ≤ 1

pub has-count : (x : ℕ) (ys : List ℕ) → has x ys ≡ ltb 0 (count x ys)
unfolding has count
has-count x [] = ground arith
has-count x (y ∷ ys) = ground (arith, has-count x ys)

pub members-without :
    (user : ℕ) (ms : List Member) → members (without user ms) ≡ remove user (members ms)
unfolding without remove
members-without user [] = refl
members-without user (m ∷ ms) = ground (arith, members-without user ms)

abbrev pub at : ℕ → ℕ → ℕ → ℕ → ℕ
at user chan v d = one_if (v == user && d == chan)

module _ (user chan : ℕ) (w : World) (u : User) (c : Channel) (hu : w.users user ≡ some u)
    (hc : w.chans chan ≡ some c) where
  pub in_foot-entered :
      (v d : ℕ) → in_foot (entered user chan u c w) v d ≡ in_foot w v d + at user chan v d
  unfolding count
  in_foot-entered v d = elim (Bool-cases (user == v)) [
    | inl e ↦ let same = (==_iff user v).0 e in rw (e, ← same, hu, ==_refl user) (omega arith)
    | inr e ↦ rw (e, ==_symm v user, e) (omega arith)
  ]

  pub in_head-entered :
      (v d : ℕ) → in_head (entered user chan u c w) v d ≡ in_head w v d + at user chan v d
  unfolding count
  in_head-entered v d = elim (Bool-cases (chan == d)) [
    | inl e ↦
        let same = (==_iff chan d).0 e in
        rw (e, ← same, hc, ==_refl chan) (ground (arith, ==_symm user v))
    | inr e ↦ rw (e, ==_symm d chan, e) (ground arith)
  ]

  pub in_foot-quitted :
      0 < in_foot w user chan
      → (v d : ℕ) → in_foot (quitted user chan u c w) v d + at user chan v d ≡ in_foot w v d
  in_foot-quitted on v d = elim (Bool-cases (user == v)) [
    | inl e ↦
        let same = (==_iff user v).0 e in
        rw (e, ← same, hu, ==_refl user) (count-remove chan d u.chan_foot (rw hu at on))
    | inr e ↦ rw (e, ==_symm v user, e) (omega arith)
  ]

  pub in_head-quitted :
      0 < in_head w user chan
      → (v d : ℕ) → in_head (quitted user chan u c w) v d + at user chan v d ≡ in_head w v d
  in_head-quitted on v d = elim (Bool-cases (chan == d)) [
    | inl e ↦
        let same = (==_iff chan d).0 e in
        rw (e, ← same, hc, ==_refl chan)
          (rw (members-without user c.head)
            (ground (arith, count-remove user v (members c.head) (rw hc at on))))
    | inr e ↦ rw (e, ==_symm d chan, e) (ground arith)
  ]

-- one who is on the channel leaves both lists
pub quitted-IsWorld :
    (user chan : ℕ) (w : World) (u : User) (c : Channel)
    → w.users user ≡ some u
    → w.chans chan ≡ some c
    → IsWorld w
    → 0 < in_foot w user chan
    → IsWorld (quitted user chan u c w)
quitted-IsWorld user chan w u c hu hc v on =
    let on' : 0 < in_head w user chan = omega (arith, v.agree user chan, on) in
    record {
      agree = λ q d. omega (
        arith,
        v.agree q d,
        in_foot-quitted user chan w u c hu hc on q d,
        in_head-quitted user chan w u c hu hc on' q d,
      );
      once = λ q d. omega (arith, v.once q d, in_foot-quitted user chan w u c hu hc on q d);
    }

pub entered-IsWorld :
    (user chan : ℕ) (w : World) (u : User) (c : Channel)
    → w.users user ≡ some u
    → w.chans chan ≡ some c
    → IsWorld w
    → in_foot w user chan ≡ 0
    → IsWorld (entered user chan u c w)
entered-IsWorld user chan w u c hu hc v off = record {
  agree = λ q d. omega (
    arith,
    v.agree q d,
    in_foot-entered user chan w u c hu hc q d,
    in_head-entered user chan w u c hu hc q d,
  );
  once = λ q d. omega (arith, in_foot-entered user chan w u c hu hc q d, new_once q d);
}
  where
    new_once : (q d : ℕ) → in_foot w q d + at user chan q d ≤ 1
    new_once q d = elim (Bool-cases (q == user)) [
      | inr e ↦ rw e (omega (arith, v.once q d))
      | inl e ↦ elim (Bool-cases (d == chan)) [
        | inr e' ↦ rw (e, e') (omega (arith, v.once q d))
        | inl e' ↦ rw (e, e', (==_iff q user).0 e, (==_iff d chan).0 e', off) (omega arith)
      ]
    ]
