-- ===== src/Channels/Levels.antt =====
-- getuchan and setlevel of src/channel.c: the level that a member has on a channel.
use ape_server.Prelude.{
  ℕ, ◌≡◌, ◌∙◌, refl, ap, Bool, true, false, not, ◌&&◌, ◌||◌, Option, none, some, List, [], ◌∷◌,
  ◌==◌, ltb, if◌then◌else◌, count, arith, Bool-cases, inl, inr, ==_refl, ==_symm, leb,
}
use ape_server.Raw.Send.{◌>>=◌}
use ape_server.Channels.{
  Member, Channel, User, Message, raw_setlevel, setlevel_error, World, members, set_chan, post,
}

unfoldable pub find_member : ℕ → List Member → Option Member
find_member user [] = none
find_member user (m ∷ ms) = if m.userinfo == user then some m else find_member user ms

unfoldable pub getuchan : ℕ → ℕ → World → Option (Option Member)
unfolding find_member
getuchan user chan w = do c ← w.chans chan; some (find_member user c.head)

-- `user_passif_chan->level = lvl`
unfoldable pub assign_level : ℕ → ℕ → List Member → List Member
assign_level user lvl [] = []
assign_level user lvl (m ∷ ms) =
    if m.userinfo == user then record m { level = lvl } ∷ ms else m ∷ assign_level user lvl ms

-- the conditions for one who acts
unfoldable pub may_set : Option Member → Option Member → Bool → ℕ → Bool
may_set (some actif) (some passif) autoop lvl =
    not (
      (ltb actif.level lvl || ltb actif.level passif.level) && not autoop
      || ltb lvl 1
      || ltb 32 lvl)
may_set _ _ autoop lvl = false

-- the conditions for the server
unfoldable pub server_may_set : Option Member → ℕ → Bool
server_may_set (some passif) lvl = ltb 0 lvl && ltb lvl 32
server_may_set none lvl = false

-- raw_setlevel to all, on an interactive channel
unfoldable pub tell_level : Bool → List ℕ → Message → World → World
tell_level true to m w = w
tell_level false to m w = post to m w

unfoldable pub change_level : Option ℕ → ℕ → ℕ → ℕ → World → Option (Bool × World)
unfolding assign_level tell_level
change_level actif passif chan lvl w = do
  c ← w.chans chan
  some (
    true,
    tell_level c.noninteractive (members (assign_level passif lvl c.head))
        (raw_setlevel chan passif actif lvl)
        (set_chan chan (record c { head = assign_level passif lvl c.head }) w),
  )

unfoldable pub setlevel : Option ℕ → ℕ → ℕ → ℕ → World → Option (Bool × World)
unfolding getuchan may_set server_may_set change_level
setlevel (some actif) passif chan lvl w = do
  p ← getuchan passif chan w
  a ← getuchan actif chan w
  u ← w.users actif
  if may_set a p u.autoop lvl
      then change_level (some actif) passif chan lvl w
      else some (false, post (actif ∷ []) setlevel_error w)
setlevel none passif chan lvl w = do
  p ← getuchan passif chan w
  if server_may_set p lvl then change_level none passif chan lvl w else some (false, w)

-- a member's level; 0 for one who is not on the list
abbrev pub level : Option Member → ℕ
level none = 0
level (some m) = m.level

abbrev pub level_of : ℕ → Channel → ℕ
level_of user c = level (find_member user c.head)

level-assign_level :
    (user lvl q : ℕ) (ms : List Member)
    → ltb 0 (count user (members ms)) ≡ true
    → level (find_member q (assign_level user lvl ms))
      ≡ (if q == user then lvl else level (find_member q ms))
unfolding find_member assign_level count
level-assign_level user lvl q [] on = absurd (ground (arith, on))
level-assign_level user lvl q (m ∷ ms) on = ground (arith, on, level-assign_level user lvl q ms)

members-assign_level :
    (user lvl : ℕ) (ms : List Member) → members (assign_level user lvl ms) ≡ members ms
unfolding assign_level
members-assign_level user lvl [] = refl
members-assign_level user lvl (m ∷ ms) = ground (arith, members-assign_level user lvl ms)

on-find_member :
    (user : ℕ) (ms : List Member) (m : Member)
    → find_member user ms ≡ some m
    → ltb 0 (count user (members ms)) ≡ true
unfolding find_member count
on-find_member user [] m e = cc
on-find_member user (n ∷ ms) m e = elim (Bool-cases (n.userinfo == user)) [
  | inl h ↦ rw (==_symm user n.userinfo, h) (ground arith)
  | inr h ↦ rw (==_symm user n.userinfo, h) (ground (arith, on-find_member user ms m (rw h at e)))
]

-- What setlevel comes to: the same users on the channel, the new level for the one when it is given,
-- and the old ones for the others.
pub record IsRanked (passif chan lvl : ℕ) (given : Bool) (c : Channel) (w w' : World) : Type 0 where
  pub channel : Channel
  pub there : w'.chans chan ≡ some channel
  pub same_users : w'.users ≡ w.users
  pub same_members : members channel.head ≡ members c.head
  pub levels : (q : ℕ) → level_of q channel ≡ (if given && q == passif then lvl else level_of q c)

-- what one who acts may not go beyond
abbrev pub within : User → ℕ → ℕ → Channel → ℕ → Bool
within u actif passif c lvl =
    leb 1 lvl
    && leb lvl 32
    && (u.autoop || (leb lvl (level_of actif c) && leb (level_of passif c) (level_of actif c)))

tell_level_kept :
    (quiet : Bool) (to : List ℕ) (m : Message) (w : World)
    → ((tell_level quiet to m w).users ≡ w.users) × ((tell_level quiet to m w).chans ≡ w.chans)
unfolding tell_level
tell_level_kept true to m w = (refl, refl)
tell_level_kept false to m w = (refl, refl)

change_level-IsRanked :
    (actif : Option ℕ) (passif chan lvl : ℕ) (w : World) (c : Channel)
    → w.chans chan ≡ some c
    → ltb 0 (count passif (members c.head)) ≡ true
    → (w' : World) × (change_level actif passif chan lvl w ≡ some (true, w'))
      × IsRanked passif chan lvl true c w w'
unfolding change_level
change_level-IsRanked actif passif chan lvl w c hc on =
    let c' : Channel = record c { head = assign_level passif lvl c.head } in
    let told = raw_setlevel chan passif actif lvl in
    let kept = tell_level_kept c.noninteractive (members c'.head) told (set_chan chan c' w) in
    (
      tell_level c.noninteractive (members c'.head) told (set_chan chan c' w),
      rw hc refl,
      record {
        channel = c';
        there = ap (λ cs. cs chan) kept.1 ∙ rw (==_refl chan) refl;
        same_users = kept.0;
        same_members = members-assign_level passif lvl c.head;
        levels = λ q. level-assign_level passif lvl q c.head on;
      },
    )

may_set-within :
    (a p : Option Member) (autoop : Bool) (lvl : ℕ)
    → may_set a p autoop lvl ≡ true
    → ((m : Member) × (p ≡ some m))
      × ((leb 1 lvl && leb lvl 32 && (autoop || (leb lvl (level a) && leb (level p) (level a))))
          ≡ true)
unfolding may_set
may_set-within none p autoop lvl h = cc
may_set-within (some a) none autoop lvl h = cc
may_set-within (some a) (some p) true lvl h = ((p, refl), ground (arith, h))
may_set-within (some a) (some p) false lvl h = ((p, refl), ground (arith, h))

setlevel-may_set :
    (actif passif chan lvl : ℕ) (w : World) (u : User) (c : Channel)
    → w.users actif ≡ some u
    → w.chans chan ≡ some c
    → setlevel (some actif) passif chan lvl w ≡ (
        if may_set (find_member actif c.head) (find_member passif c.head) u.autoop lvl
        then change_level (some actif) passif chan lvl w
        else some (false, post (actif ∷ []) setlevel_error w))
unfolding setlevel getuchan change_level
setlevel-may_set actif passif chan lvl w u c hu hc = rw (hc, hu) refl

-- setlevel by a user who is there, on a channel that is there, touches no freed memory. When it says 1,
-- the level is between 1 and 32 and, unless the one who acts is an automatic operator, neither it
-- nor the old level of the other is above the level of the one who acts; the other then has
-- that level. No other level changes, and none at all when it says 0.
pub setlevel-IsRanked :
    (actif passif chan lvl : ℕ) (w : World) (u : User) (c : Channel)
    → w.users actif ≡ some u
    → w.chans chan ≡ some c
    → (given : Bool) × (w' : World) × (setlevel (some actif) passif chan lvl w ≡ some (given, w'))
      × ((not given || within u actif passif c lvl) ≡ true)
      × IsRanked passif chan lvl given c w w'
setlevel-IsRanked actif passif chan lvl w u c hu hc =
    let a = find_member actif c.head in
    let p = find_member passif c.head in
    elim (Bool-cases (may_set a p u.autoop lvl)) [
      | inr refused ↦ (
        false,
        post (actif ∷ []) setlevel_error w,
        setlevel-may_set actif passif chan lvl w u c hu hc ∙ rw refused refl,
        refl,
        record {
          channel = c;
          there = hc;
          same_users = refl;
          same_members = refl;
          levels = λ q. refl;
        },
      )
      | inl allowed ↦
          let ((m, e), ok) = may_set-within a p u.autoop lvl allowed in
          let (w', run, ranked) =
            change_level-IsRanked (some actif) passif chan lvl w c hc
              (on-find_member passif c.head m e) in
          (
            true,
            w',
            setlevel-may_set actif passif chan lvl w u c hu hc ∙ rw allowed run,
            ok,
            ranked,
          )
    ]
