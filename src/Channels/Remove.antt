-- ===== src/Channels/Remove.antt =====
-- left and left_all, whole.
use ape_server.Prelude.{
  ℕ, ◌<◌, ◌≡◌, ◌∙◌, refl, sym, ap, Option, Bool, true, false, ◌&&◌, ◌||◌, none, some, List, [], ◌∷◌,
  ◌==◌, ltb, if◌then◌else◌, count, is_some, arith, Bool-cases, Option-cases, inl, inr, ==_iff,
  ==_symm,
}
use ape_server.Channels.{
  Member, Channel, User, World, raw_left, post, members, has, without, tell_left, rmchan, left,
  left_chans, left_all,
}
use ape_server.Channels.Links.{in_foot, head_of, IsWorld, has-count}
use ape_server.Channels.Leave.{same_lists}
use ape_server.Channels.Quit.{
  IsOff, is_some-chans-quitted, there, left_by-off, left_by-on, told, quitted-IsOff, IsOff-refl,
  IsOff-trans, in_foot_empty, chans-quitted,
}
use ape_server.Channels.Freeing.{rmchan-IsGone}

-- removal of a channel that has nobody takes nobody off it
removed_empty :
    {gone : ℕ → ℕ → Bool} (chan : ℕ) (w w₁ w' : World) (c : Channel)
    → IsOff gone w w₁
    → w₁.chans chan ≡ some c
    → members c.head ≡ []
    → IsOff (λ q d. d == chan) w₁ w'
    → IsOff gone w w'
removed_empty chan w w₁ w' c off hc e off' = record {
  valid = off'.valid;
  off = λ q d.
      off'.off q d
      ∙ (by_test (d == chan) (in_foot w₁ q d) (in_foot_empty w₁ off.valid chan c hc e q d)
          ∙ off.off q d);
  users = λ q. off'.users q ∙ off.users q;
}
  where
    by_test : (t : Bool) (n : ℕ) → (t ≡ true → n ≡ 0) → (if t then 0 else n) ≡ n
    by_test true n h = sym (h refl)
    by_test false n h = refl

is_nil : List Member → Bool
is_nil [] = true
is_nil (_ ∷ _) = false

tell_left-IsOff :
    {gone : ℕ → ℕ → Bool} (user chan : ℕ) (auto quiet : Bool) (head : List Member) (w w₁ : World)
    (c : Channel)
    → IsOff gone w w₁
    → w₁.chans chan ≡ some c
    → c.head ≡ head
    → (w' : World) × (tell_left rmchan user chan auto quiet head w₁ ≡ some w')
      × IsOff gone w w'
      × ((d : ℕ)
          → is_some (w'.chans d)
            ≡ (if chan == d && (auto && is_nil head) then false else is_some (w₁.chans d)))
unfolding tell_left is_nil
tell_left-IsOff user chan false quiet [] w w₁ c off hc e = (w₁, refl, off, λ d. ground arith)
tell_left-IsOff user chan true quiet [] w w₁ c off hc e =
    let (w', run, removed) = rmchan-IsGone chan w₁ c hc off.valid in
    (
      w',
      run,
      removed_empty chan w w₁ w' c off hc (ap (λ (ms : List Member). members ms) e) removed.off,
      λ d. removed.chans d ∙ ground arith,
    )
tell_left-IsOff user chan auto true (m ∷ ms) w w₁ c off hc e = (w₁, refl, off, λ d. ground arith)
tell_left-IsOff user chan auto false (m ∷ ms) w w₁ c off hc e = (
  post (members (m ∷ ms)) (raw_left user chan) w₁,
  refl,
  record { valid = same_lists w₁ _ refl refl off.valid; off = off.off; users = off.users },
  λ d. ground arith,
)

nobody :
    (w : World) (user chan : ℕ)
    → in_foot w user chan ≡ 0
    → (q d : ℕ) → (q == user && d == chan) ≡ true
    → in_foot w q d ≡ 0
nobody w user chan e q d h = elim (Bool-cases (q == user)) [
  | inl same ↦ elim (Bool-cases (d == chan)) [
    | inl same' ↦ rw ((==_iff q user).0 same, (==_iff d chan).0 same') e
    | inr other ↦ absurd (ground (arith, h, same, other))
  ]
  | inr other ↦ absurd (ground (arith, h, other))
]

either :
    (user chan : ℕ) (chans : List ℕ) (q d : ℕ)
    → (q == user && has d (chan ∷ chans)) ≡ ((q == user && d == chan) || (q == user && has d chans))
unfolding has
either user chan chans q d = rw (==_symm d chan) (by_tests (q == user) (chan == d) (has d chans))
  where
    by_tests : (t s r : Bool) → (t && (if s then true else r)) ≡ ((t && s) || (t && r))
    by_tests true true r = refl
    by_tests true false r = refl
    by_tests false s r = refl

-- who is off all the channels of his list is on none
everywhere :
    (user : ℕ) (w : World) (u : User)
    → w.users user ≡ some u
    → (q d : ℕ)
    → (if q == user && has d u.chan_foot then 0 else in_foot w q d)
      ≡ (if q == user then 0 else in_foot w q d)
everywhere user w u hu q d = elim (Bool-cases (q == user)) [
  | inr other ↦ rw other
  | inl same ↦
      rw (same, (==_iff q user).0 same, hu, has-count d u.chan_foot)
        (by_count (count d u.chan_foot))
]
  where
    by_count : (n : ℕ) → (if ltb 0 n then 0 else n) ≡ 0
    by_count n = ground arith

-- the user is the only member
unfoldable pub only : ℕ → List ℕ → Bool
only user (v ∷ []) = v == user
only user _ = false

-- the channel destroys itself when the user leaves it
abbrev pub leaves_nobody : ℕ → Option Channel → Bool
leaves_nobody user none = false
leaves_nobody user (some c) = c.autodestroy && only user (members c.head)

only-without :
    (user : ℕ) (head : List Member)
    → has user (members head) ≡ true
    → is_nil (without user head) ≡ only user (members head)
unfolding only has without is_nil
only-without user [] h = absurd (ground (arith, h))
only-without user (m ∷ []) h = ground (arith, h)
only-without user (m ∷ n ∷ ms) h = elim (Bool-cases (m.userinfo == user)) [
  | inl e ↦ rw e refl
  | inr e ↦ rw e refl
]

only-absent : (user : ℕ) (us : List ℕ) → count user us ≡ 0 → only user us ≡ false
unfolding only count
only-absent user [] e = refl
only-absent user (v ∷ []) e = ground (arith, e, ==_symm user v)
only-absent user (v ∷ n ∷ us) e = refl

leaves_nobody-absent :
    (user : ℕ) (o : Option Channel) → count user (head_of o) ≡ 0 → leaves_nobody user o ≡ false
leaves_nobody-absent user none e = refl
leaves_nobody-absent user (some c) e = ground (arith, only-absent user (members c.head) e)

-- the channels that are there after a departure
abbrev Leaves : ℕ → ℕ → World → World → Type 0
Leaves user chan w w' =
    (d : ℕ)
    → is_some (w'.chans d)
      ≡ (if chan == d && leaves_nobody user (w.chans chan) then false else is_some (w.chans d))

left-on :
    (user chan : ℕ) (w : World) (u : User) (c : Channel)
    → w.users user ≡ some u
    → w.chans chan ≡ some c
    → IsWorld w
    → 0 < in_foot w user chan
    → (w' : World) × (left user chan w ≡ some w')
      × IsOff (λ q d. q == user && d == chan) w w'
      × Leaves user chan w w'
unfolding left
left-on user chan w u c hu hc v on =
    let listed : has user (members c.head) ≡ true =
      rw (has-count user (members c.head)) (ground (arith, on, rw hc at (v.agree user chan))) in
    let (w', run, off, chans) =
      tell_left-IsOff user chan c.autodestroy c.noninteractive (without user c.head) w
        (told user chan w u c) (record c { head = without user c.head })
        (quitted-IsOff user chan w v u c hu hc on (told user chan w u c) refl refl)
        (chans-quitted user chan w u c) refl in
    (
      w',
      left_by-on user chan w v u c hu hc on rmchan ∙ run,
      off,
      λ d.
          chans d
          ∙ ap
              (λ t.
                if chan == d && (c.autodestroy && t)
                then false
                else is_some ((told user chan w u c).chans d))
              (only-without user c.head listed)
          ∙ ap (λ t. if chan == d && leaves_nobody user (some c) then false else t)
              (is_some-chans-quitted user chan w u c hc d)
          ∙ ap (λ o. if chan == d && leaves_nobody user o then false else is_some (w.chans d))
              (sym hc),
    )

-- Where both records of who is on which channel agree, and have nothing twice, left of a user who
-- is there, on the channel or not, touches no freed user and no freed channel; they agree afterwards
-- too, the user is off the channel in both, and who else is on which channel is as before. The
-- channel is freed if it destroys itself and the user was its only member; nothing else is freed.
pub left-IsOff :
    (user chan : ℕ) (w : World) (u : User)
    → w.users user ≡ some u
    → IsWorld w
    → (w' : World) × (left user chan w ≡ some w')
      × IsOff (λ q d. q == user && d == chan) w w'
      × ((d : ℕ)
          → is_some (w'.chans d) ≡ (
              if chan == d && leaves_nobody user (w.chans chan)
              then false
              else is_some (w.chans d)))
unfolding left
left-IsOff user chan w u hu v = elim (Bool-cases (ltb 0 (in_foot w user chan))) [
  | inl e ↦
      let on : 0 < in_foot w user chan = ground (arith, e) in
      let (_, (c, hc)) = there w v user chan on in left-on user chan w u c hu hc v on
  | inr e ↦
      let absent : in_foot w user chan ≡ 0 = ground (arith, e) in
      let stays : leaves_nobody user (w.chans chan) ≡ false =
        leaves_nobody-absent user (w.chans chan) (sym (v.agree user chan) ∙ absent) in
      (
        w,
        left_by-off rmchan user chan w u hu e,
        IsOff-refl (λ q d. q == user && d == chan) w v (nobody w user chan absent),
        λ d. ground (arith, stays),
      )
]

-- the channels of a list, and no others
abbrev listed_for : ℕ → List ℕ → ℕ → ℕ → Bool
listed_for user chans q d = q == user && has d chans

left_chans-IsOff :
    (chans : List ℕ) (user : ℕ) (w : World)
    → is_some (w.users user) ≡ true
    → IsWorld w
    → (w' : World) × (left_chans chans user w ≡ some w') × IsOff (listed_for user chans) w w'
unfolding left_chans has
left_chans-IsOff [] user w hu v =
    (w, refl, IsOff-refl (listed_for user []) w v (λ q d h. absurd (ground (arith, h))))
left_chans-IsOff (chan ∷ chans) user w hu v = elim (Option-cases (w.users user)) [
  | inl e ↦ absurd (ground (arith, rw e at hu))
  | inr (u, e) ↦
      let (w₁, run, off, _) = left-IsOff user chan w u e v in
      let (w', run', off') = left_chans-IsOff chans user w₁ (off.users user ∙ hu) off.valid in
      (w', rw run run', IsOff-trans (either user chan chans) off off')
]

-- Where both records agree, and have nothing twice, left_all of a user who is there touches no
-- freed memory; they agree afterwards too, the user is on no channel, and every other user is
-- where they were.
pub left_all-IsOff :
    (user : ℕ) (w : World) (u : User)
    → w.users user ≡ some u
    → IsWorld w
    → (w' : World) × (left_all user w ≡ some w') × IsOff (λ q d. q == user) w w'
unfolding left_all
left_all-IsOff user w u hu v =
    let (w', run, off) = left_chans-IsOff u.chan_foot user w (rw hu refl) v in
    (
      w',
      rw hu run,
      record {
        valid = off.valid;
        off = λ q d. off.off q d ∙ everywhere user w u hu q d;
        users = off.users;
      },
    )
