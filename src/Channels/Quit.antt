-- ===== src/Channels/Quit.antt =====
-- left, rmchan and left_all keep both records of who is on which channel.
use ape_server.Prelude.{
  ℕ, ◌+◌, ◌≤◌, ◌<◌, ◌≡◌, ◌∙◌, refl, sym, ap, Bool, true, false, ◌&&◌, ◌||◌, Option, none, some,
  List, [], ◌∷◌, ◌==◌, ltb, if◌then◌else◌, remove, count, one_if, is_some, arith, Bool-cases,
  Option-cases, inl, inr, ==_iff, ==_refl,
}
use ape_server.Channels.{
  Member, Channel, User, raw_left, World, members, post, has, without, quitted, tell_left, unlink,
  left_by, left_each,
}
use ape_server.Channels.Links.{
  foot_of, in_foot, in_head, IsWorld, has-count, members-without, quitted-IsWorld, in_foot-quitted,
}
use ape_server.Channels.Leave.{isonchannel-in_foot, same_lists}

-- What a departure comes to: those of `gone` are off their channels, the others where they were.
pub record IsOff (gone : ℕ → ℕ → Bool) (w w' : World) : Type 0 where
  pub valid : IsWorld w'
  pub off : (v d : ℕ) → in_foot w' v d ≡ (if gone v d then 0 else in_foot w v d)
  pub users : (v : ℕ) → is_some (w'.users v) ≡ is_some (w.users v)

-- who is on a channel is there
pub there :
    (w : World) (v : IsWorld w) (user chan : ℕ)
    → 0 < in_foot w user chan
    → ((u : User) × (w.users user ≡ some u)) × ((c : Channel) × (w.chans chan ≡ some c))
unfolding count
there w v user chan on = elim (Option-cases (w.users user)) [
  | inl e ↦ absurd (ground (arith, rw e at on))
  | inr (u, e) ↦ elim (Option-cases (w.chans chan)) [
    | inl e' ↦ absurd (ground (arith, rw e' at (v.agree user chan), on))
    | inr (c, e') ↦ ((u, e), (c, e'))
  ]
]

pub left_by-off :
    (destroy : ℕ → World → Option World) (user chan : ℕ) (w : World) (u : User)
    → w.users user ≡ some u
    → ltb 0 (in_foot w user chan) ≡ false
    → left_by destroy user chan w ≡ some w
unfolding left_by
left_by-off destroy user chan w u hu off = rw (isonchannel-in_foot user chan w u hu, off) refl

one_less : (a b : ℕ) (t : Bool) → a + one_if t ≡ b → b ≤ 1 → a ≡ (if t then 0 else b)
one_less a b true e h = omega arith
one_less a b false e h = omega arith

-- the world when the user is unlinked and told
abbrev pub told : ℕ → ℕ → World → User → Channel → World
told user chan w u c = post (user ∷ []) (raw_left user chan) (quitted user chan u c w)

module _ (user chan : ℕ) (w : World) (v : IsWorld w) (u : User) (c : Channel)
    (hu : w.users user ≡ some u) (hc : w.chans chan ≡ some c) (on : 0 < in_foot w user chan) where
  pub left_by-on :
      (destroy : ℕ → World → Option World)
      → left_by destroy user chan w
        ≡ tell_left destroy user chan c.autodestroy c.noninteractive
            (without user c.head)
            (told user chan w u c)
  unfolding left_by unlink
  left_by-on destroy =
      let e : ltb 0 (in_foot w user chan) ≡ true = ground arith in
      let listed : has user (members c.head) ≡ true =
        rw (has-count user (members c.head)) (ground (arith, rw hc at (v.agree user chan))) in
      rw (isonchannel-in_foot user chan w u hu, e, hu, hc, listed) refl

  users-quitted : (q : ℕ) → is_some ((quitted user chan u c w).users q) ≡ is_some (w.users q)
  users-quitted q = elim (Bool-cases (user == q)) [
    | inl e ↦ rw (e, ← (==_iff user q).0 e, hu)
    | inr e ↦ rw e
  ]

  -- Whatever is posted behind it, the user is off the channel.
  pub quitted-IsOff :
      (w' : World)
      → w'.users ≡ (quitted user chan u c w).users
      → w'.chans ≡ (quitted user chan u c w).chans
      → IsOff (λ q d. q == user && d == chan) w w'
  quitted-IsOff w' eu ec = record {
    valid =
        same_lists (quitted user chan u c w) w' eu ec (quitted-IsWorld user chan w u c hu hc v on);
    off = λ q d.
        ap (λ us. count d (foot_of (us q))) eu
        ∙ one_less (in_foot (quitted user chan u c w) q d) (in_foot w q d) (q == user && d == chan)
            (in_foot-quitted user chan w u c hu hc on q d) (v.once q d);
    users = λ q. ap (λ us. is_some (us q)) eu ∙ users-quitted q;
  }

-- What the loop of rmchan leaves as it is: the names, the calls of destroy_pipe, which channels are
-- there, and the name and the pipe of the channel.
pub record Kept (w w' : World) (c c' : Channel) : Type 0 where
  pub lusers : w'.lusers ≡ w.lusers
  pub destroyed : w'.destroyed ≡ w.destroyed
  pub chans : (d : ℕ) → is_some (w'.chans d) ≡ is_some (w.chans d)
  pub name : c'.name ≡ c.name
  pub pipe : c'.pipe ≡ c.pipe

-- A channel that does not destroy itself: the departure only posts.
pub tell_left_kept :
    (destroy : ℕ → World → Option World) (user chan : ℕ) (auto quiet : Bool) (head : List Member)
    (w : World)
    → auto ≡ false
    → (w' : World) × (tell_left destroy user chan auto quiet head w ≡ some w')
      × (w'.users ≡ w.users)
      × (w'.chans ≡ w.chans)
      × (w'.lusers ≡ w.lusers)
      × (w'.destroyed ≡ w.destroyed)
unfolding tell_left
tell_left_kept destroy user chan auto quiet [] w e = (w, rw e refl, refl, refl, refl, refl)
tell_left_kept destroy user chan auto true (m ∷ ms) w e = (w, refl, refl, refl, refl, refl)
tell_left_kept destroy user chan auto false (m ∷ ms) w e =
    (post (members (m ∷ ms)) (raw_left user chan) w, refl, refl, refl, refl, refl)

pub IsOff-refl :
    (gone : ℕ → ℕ → Bool) (w : World)
    → IsWorld w
    → ((v d : ℕ) → gone v d ≡ true → in_foot w v d ≡ 0)
    → IsOff gone w w
IsOff-refl gone w v none_left = record {
  valid = v;
  off = λ q d. by_test (gone q d) (in_foot w q d) (none_left q d);
  users = λ q. refl;
}
  where
    by_test : (t : Bool) (n : ℕ) → (t ≡ true → n ≡ 0) → n ≡ (if t then 0 else n)
    by_test true n h = h refl
    by_test false n h = refl

pub IsOff-trans :
    {gone gone' gone'' : ℕ → ℕ → Bool} {w w' w'' : World}
    → ((v d : ℕ) → gone'' v d ≡ (gone v d || gone' v d))
    → IsOff gone w w'
    → IsOff gone' w' w''
    → IsOff gone'' w w''
IsOff-trans {gone = gone} {gone' = gone'} {w = w} either a b = record {
  valid = b.valid;
  off = λ q d.
      b.off q d
      ∙ (ap (λ n. if gone' q d then 0 else n) (a.off q d)
          ∙ (by_tests (gone q d) (gone' q d) (in_foot w q d)
              ∙ ap (λ t. if t then 0 else in_foot w q d) (sym (either q d))));
  users = λ q. b.users q ∙ a.users q;
}
  where
    by_tests :
        (t t' : Bool) (n : ℕ) → (if t' then 0 else if t then 0 else n) ≡ (if t || t' then 0 else n)
    by_tests true true n = refl
    by_tests true false n = refl
    by_tests false true n = refl
    by_tests false false n = refl

pub in_foot_empty :
    (w : World) (v : IsWorld w) (chan : ℕ) (c : Channel)
    → w.chans chan ≡ some c
    → members c.head ≡ []
    → (q d : ℕ) → (d == chan) ≡ true
    → in_foot w q d ≡ 0
unfolding count
in_foot_empty w v chan c hc e q d h = rw ((==_iff d chan).0 h) (v.agree q chan ∙ empty)
  where
    empty : in_head w q chan ≡ 0
    empty = rw (hc, e) refl

in_foot_first :
    (w : World) (v : IsWorld w) (chan : ℕ) (c : Channel) (user : ℕ) (us : List ℕ)
    → w.chans chan ≡ some c
    → members c.head ≡ user ∷ us
    → 0 < in_foot w user chan
unfolding count
in_foot_first w v chan c user us hc e = rw (v.agree user chan, hc, e, ==_refl user) (omega arith)

without_first :
    (user : ℕ) (us : List ℕ) (head : List Member)
    → members head ≡ user ∷ us
    → members (without user head) ≡ us
unfolding remove
without_first user us head e = rw (members-without user head, e, ==_refl user)

pub chans-quitted :
    (user chan : ℕ) (w : World) (u : User) (c : Channel)
    → (quitted user chan u c w).chans chan ≡ some (record c { head = without user c.head })
chans-quitted user chan w u c = rw (==_refl chan)

pub either_way : (t t' : Bool) → t' ≡ ((t && t') || t')
either_way true true = refl
either_way true false = refl
either_way false t' = refl

pub is_some-chans-quitted :
    (user chan : ℕ) (w : World) (u : User) (c : Channel)
    → w.chans chan ≡ some c
    → (d : ℕ) → is_some ((quitted user chan u c w).chans d) ≡ is_some (w.chans d)
is_some-chans-quitted user chan w u c hc d = elim (Bool-cases (chan == d)) [
  | inl e ↦ rw (e, ← (==_iff chan d).0 e, hc)
  | inr e ↦ rw e
]

-- The loop of rmchan empties the channel, and never calls rmchan again.
pub left_each-IsOff :
    (us : List ℕ) (chan : ℕ) (w : World) (c : Channel)
    → IsWorld w
    → w.chans chan ≡ some c
    → c.autodestroy ≡ false
    → members c.head ≡ us
    → (w' : World) × (c' : Channel) × (left_each us chan w ≡ some w')
      × IsOff (λ q d. d == chan) w w'
      × (w'.chans chan ≡ some c')
      × (members c'.head ≡ [])
      × Kept w w' c c'
unfolding left_each
left_each-IsOff [] chan w c v hc auto e = (
  w,
  c,
  refl,
  IsOff-refl (λ q d. d == chan) w v (in_foot_empty w v chan c hc e),
  hc,
  e,
  record { lusers = refl; destroyed = refl; chans = λ d. refl; name = refl; pipe = refl },
)
left_each-IsOff (user ∷ us) chan w c v hc auto e =
    let on = in_foot_first w v chan c user us hc e in
    let ((u, hu), _) = there w v user chan on in
    let (w₁, run, eu, ec, el, ed) =
      tell_left_kept (λ chan w. none) user chan c.autodestroy c.noninteractive (without user c.head)
        (told user chan w u c) auto in
    let off = quitted-IsOff user chan w v u c hu hc on w₁ eu ec in
    let c₁ : Channel = record c { head = without user c.head } in
    let (w', c', run', off', there', empty, kept) =
      left_each-IsOff us chan w₁ c₁ off.valid
        (ap (λ cs. cs chan) ec ∙ chans-quitted user chan w u c) auto
        (without_first user us c.head e) in
    (
      w',
      c',
      rw (left_by-on user chan w v u c hu hc on (λ chan w. none) ∙ run) run',
      IsOff-trans (λ q d. either_way (q == user) (d == chan)) off off',
      there',
      empty,
      record {
        lusers = kept.lusers ∙ el;
        destroyed = kept.destroyed ∙ ed;
        chans = λ d.
            kept.chans d
            ∙ ap (λ cs. is_some (cs d)) ec
            ∙ is_some-chans-quitted user chan w u c hc d;
        name = kept.name;
        pipe = kept.pipe;
      },
    )
