-- ===== src/Channels/Leave.antt =====
-- join, left, rmchan and left_all keep both records of who is on which channel.
use ape_server.Prelude.{
  ℕ, ◌+◌, ◌≡◌, ◌∙◌, refl, ap, Bool, true, false, ◌&&◌, some, List, [], ◌∷◌, ◌==◌, ltb,
  if◌then◌else◌, count, arith, Bool-cases, inl, inr, ==_iff,
}
use ape_server.Raw.Send.{◌>>=◌}
use ape_server.Channels.{
  Member, Channel, User, World, isonchannel, enter, tell_joined, join, entered,
}
use ape_server.Channels.Links.{
  foot_of, in_foot, IsWorld, has-count, at, entered-IsWorld, in_foot-entered,
}

-- What joining comes to: the user is on the channel, and who else is on which channel is as before.
pub record IsJoined (user chan : ℕ) (w w' : World) : Type 0 where
  pub valid : IsWorld w'
  pub on : (v d : ℕ) → in_foot w' v d ≡ (if v == user && d == chan then 1 else in_foot w v d)

pub same_lists : (w w' : World) → w'.users ≡ w.users → w'.chans ≡ w.chans → IsWorld w → IsWorld w'
same_lists w w' eu ec v = record {
  agree = λ q d. rw (eu, ec) (v.agree q d);
  once = λ q d. rw eu (v.once q d);
}

pub isonchannel-in_foot :
    (user chan : ℕ) (w : World) (u : User)
    → w.users user ≡ some u
    → isonchannel user chan w ≡ some (ltb 0 (in_foot w user chan))
unfolding isonchannel
isonchannel-in_foot user chan w u hu = rw (hu, ◌>>=◌, has-count chan u.chan_foot) refl

join-off :
    (user chan : ℕ) (w : World) (u : User) (c : Channel)
    → w.users user ≡ some u
    → w.chans chan ≡ some c
    → ltb 0 (in_foot w user chan) ≡ false
    → join user chan w
      ≡ some (tell_joined user chan c.noninteractive c.head (entered user chan u c w))
unfolding join enter
join-off user chan w u c hu hc off = rw (isonchannel-in_foot user chan w u hu, off, hu, hc) refl

tell_joined_kept :
    (user chan : ℕ) (quiet : Bool) (before : List Member) (w : World)
    → ((tell_joined user chan quiet before w).users ≡ w.users)
      × ((tell_joined user chan quiet before w).chans ≡ w.chans)
unfolding tell_joined
tell_joined_kept user chan true before w = (refl, refl)
tell_joined_kept user chan false [] w = (refl, refl)
tell_joined_kept user chan false (m ∷ ms) w = (refl, refl)

on_it :
    (w : World) (user chan : ℕ)
    → in_foot w user chan ≡ 1
    → (q d : ℕ) → in_foot w q d ≡ (if q == user && d == chan then 1 else in_foot w q d)
on_it w user chan e q d = elim (Bool-cases (q == user)) [
  | inr h ↦ rw h
  | inl h ↦ elim (Bool-cases (d == chan)) [
    | inr h' ↦ rw (h, h')
    | inl h' ↦ rw (h, h', (==_iff q user).0 h, (==_iff d chan).0 h') e
  ]
]

one_more :
    (w : World) (user chan : ℕ)
    → in_foot w user chan ≡ 0
    → (q d : ℕ)
    → in_foot w q d + at user chan q d ≡ (if q == user && d == chan then 1 else in_foot w q d)
one_more w user chan e q d = elim (Bool-cases (q == user)) [
  | inr h ↦ rw h (omega arith)
  | inl h ↦ elim (Bool-cases (d == chan)) [
    | inr h' ↦ rw (h, h') (omega arith)
    | inl h' ↦ rw (h, h', (==_iff q user).0 h, (==_iff d chan).0 h', e) (omega arith)
  ]
]

-- Where both records of who is on which channel agree, and have nothing twice, a user who is
-- there joins a channel that is there: no freed memory is touched, the records agree afterwards
-- too, the user is on the channel, once in each, and who else is on which channel is as before.
pub join-IsJoined :
    (user chan : ℕ) (w : World) (u : User) (c : Channel)
    → w.users user ≡ some u
    → w.chans chan ≡ some c
    → IsWorld w
    → (w' : World) × (join user chan w ≡ some w') × IsJoined user chan w w'
unfolding join
join-IsJoined user chan w u c hu hc v = elim (Bool-cases (ltb 0 (in_foot w user chan))) [
  | inl e ↦ (
    w,
    rw (isonchannel-in_foot user chan w u hu, ◌>>=◌, e) refl,
    record { valid = v; on = λ q d. on_it w user chan (ground (arith, e, v.once user chan)) q d },
  )
  | inr e ↦
      let w₁ = entered user chan u c w in
      let v₁ = entered-IsWorld user chan w u c hu hc v (ground (arith, e)) in
      let kept = tell_joined_kept user chan c.noninteractive c.head w₁ in
      let none_yet : in_foot w user chan ≡ 0 = ground (arith, e) in
      (
        tell_joined user chan c.noninteractive c.head w₁,
        join-off user chan w u c hu hc e,
        record {
          valid = same_lists w₁ _ kept.0 kept.1 v₁;
          on = λ q d.
              ap (λ us. count d (foot_of (us q))) kept.0
              ∙ (in_foot-entered user chan w u c hu hc q d ∙ one_more w user chan none_yet q d);
        },
      )
]
