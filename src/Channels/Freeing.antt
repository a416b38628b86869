-- ===== src/Channels/Freeing.antt =====
-- rmchan, whole.
use ape_server.Prelude.{
  ℕ, ◌≡◌, ◌∙◌, refl, ap, ap₂, Bool, true, false, ◌||◌, none, some, List, [], ◌∷◌, ◌==◌,
  if◌then◌else◌, update, count, is_some, Bool-cases, inl, inr, ==_iff, ==_refl, ==_symm,
}
use ape_server.Prelude.Text.{CString, casecmp}
use ape_server.Hash.{hashtbl_erase, hashtbl_seek}
use ape_server.Hash.Items.{IsValid, seek-erase_valid}
use ape_server.Raw.Send.{◌>>=◌}
use ape_server.Channels.{Member, Channel, World, members, set_chan, empty_out, rmchan}
use ape_server.Channels.Links.{IsWorld}
use ape_server.Channels.Quit.{IsOff, Kept, IsOff-refl, IsOff-trans, in_foot_empty, left_each-IsOff}

-- the world without the channel
abbrev freed : ℕ → World → Channel → World
freed chan w c = record w {
  lusers = hashtbl_erase w.lusers (some c.name);
  chans = update w.chans chan none;
  destroyed = c.pipe ∷ w.destroyed;
}

freed-IsOff :
    (chan : ℕ) (w : World) (c : Channel)
    → IsWorld w
    → w.chans chan ≡ some c
    → members c.head ≡ []
    → IsOff (λ q d. d == chan) w (freed chan w c)
unfolding count
freed-IsOff chan w c v hc e = record {
  valid = record {
    agree = λ q d. elim (Bool-cases (chan == d)) [
      | inl h ↦ rw h (in_foot_empty w v chan c hc e q d (==_symm d chan ∙ h))
      | inr h ↦ rw h (v.agree q d)
    ];
    once = v.once;
  };
  off = λ q d. (IsOff-refl (λ q d. d == chan) w v (in_foot_empty w v chan c hc e)).off q d;
  users = λ q. refl;
}

-- the channel that rmchan empties
abbrev hushed : Channel → Channel
hushed c = record c { noninteractive = true; autodestroy = false }

hushed-IsWorld :
    (chan : ℕ) (w : World) (c : Channel)
    → w.chans chan ≡ some c
    → IsWorld w
    → IsWorld (set_chan chan (hushed c) w)
hushed-IsWorld chan w c hc v = record {
  agree = λ q d. elim (Bool-cases (chan == d)) [
    | inl h ↦ rw (h, ← (==_iff chan d).0 h) (rw hc at (v.agree q chan))
    | inr h ↦ rw h (v.agree q d)
  ];
  once = v.once;
}

-- What removal comes to in the lists and on the heap.
pub record IsGone (chan : ℕ) (c : Channel) (w w' : World) : Type 0 where
  pub off : IsOff (λ q d. d == chan) w w'
  pub chans : (d : ℕ) → is_some (w'.chans d) ≡ (if chan == d then false else is_some (w.chans d))
  pub lusers : w'.lusers ≡ hashtbl_erase w.lusers (some c.name)
  pub destroyed : w'.destroyed ≡ c.pipe ∷ w.destroyed

-- What removal comes to: nobody is on the channel; it is freed, and no other is; its name is not found,
-- up to case, and other names are found as before; destroy_pipe is called once, for its pipe.
pub record IsRemoved (chan : ℕ) (c : Channel) (w w' : World) : Type 0 where
  pub off : IsOff (λ q d. d == chan) w w'
  pub chans : (d : ℕ) → is_some (w'.chans d) ≡ (if chan == d then false else is_some (w.chans d))
  pub lusers :
      (q : CString)
      → hashtbl_seek w'.lusers (some q)
        ≡ (if casecmp c.name q then none else hashtbl_seek w.lusers (some q))
  pub destroyed : w'.destroyed ≡ c.pipe ∷ w.destroyed

hushed-IsOff :
    (chan : ℕ) (w w' : World) (c : Channel)
    → w.chans chan ≡ some c
    → IsOff (λ q d. d == chan) (set_chan chan (hushed c) w) w'
    → IsOff (λ q d. d == chan) w w'
hushed-IsOff chan w w' c hc o = record { valid = o.valid; off = o.off; users = o.users }

is_some-hushed :
    (chan : ℕ) (w : World) (c : Channel)
    → w.chans chan ≡ some c
    → (d : ℕ) → is_some ((set_chan chan (hushed c) w).chans d) ≡ is_some (w.chans d)
is_some-hushed chan w c hc d = elim (Bool-cases (chan == d)) [
  | inl e ↦ rw (e, ← (==_iff chan d).0 e, hc)
  | inr e ↦ rw e
]

empty_out-IsOff :
    (head : List Member) (chan : ℕ) (w : World) (c : Channel)
    → IsWorld w
    → w.chans chan ≡ some c
    → c.head ≡ head
    → (w' : World) × (c' : Channel) × (empty_out head chan c w ≡ some w')
      × IsOff (λ q d. d == chan) w w'
      × (w'.chans chan ≡ some c')
      × (members c'.head ≡ [])
      × Kept w w' c c'
unfolding empty_out
empty_out-IsOff [] chan w c v hc e =
    let e' = ap (λ (ms : List Member). members ms) e in
    (
      w,
      c,
      refl,
      IsOff-refl (λ q d. d == chan) w v (in_foot_empty w v chan c hc e'),
      hc,
      e',
      record { lusers = refl; destroyed = refl; chans = λ d. refl; name = refl; pipe = refl },
    )
empty_out-IsOff (m ∷ ms) chan w c v hc e =
    let (w', c', run, off, there', empty, kept) =
      left_each-IsOff (members (m ∷ ms)) chan (set_chan chan (hushed c) w) (hushed c)
        (hushed-IsWorld chan w c hc v) (rw (==_refl chan)) refl
        (ap (λ (ms : List Member). members ms) e) in
    (
      w',
      c',
      run,
      hushed-IsOff chan w w' c hc off,
      there',
      empty,
      record {
        lusers = kept.lusers;
        destroyed = kept.destroyed;
        chans = λ d. kept.chans d ∙ is_some-hushed chan w c hc d;
        name = kept.name;
        pipe = kept.pipe;
      },
    )

rmchan-freed :
    (chan : ℕ) (w w₁ : World) (c c₁ : Channel)
    → w.chans chan ≡ some c
    → empty_out c.head chan c w ≡ some w₁
    → w₁.chans chan ≡ some c₁
    → rmchan chan w ≡ some (freed chan w₁ c₁)
unfolding rmchan
rmchan-freed chan w w₁ c c₁ hc run hc₁ = rw (hc, ◌>>=◌, run, hc₁) refl

pub rmchan-IsGone :
    (chan : ℕ) (w : World) (c : Channel)
    → w.chans chan ≡ some c
    → IsWorld w
    → (w' : World) × (rmchan chan w ≡ some w') × IsGone chan c w w'
rmchan-IsGone chan w c hc v =
    let (w₁, c₁, run, off, hc₁, empty, kept) = empty_out-IsOff c.head chan w c v hc refl in
    (
      freed chan w₁ c₁,
      rmchan-freed chan w w₁ c c₁ hc run hc₁,
      record {
        off =
            IsOff-trans (λ q d. twice (d == chan)) off (freed-IsOff chan w₁ c₁ off.valid hc₁ empty);
        chans = λ d.
            is_some-freed chan w₁ c₁ d ∙ ap (λ t. if chan == d then false else t) (kept.chans d);
        lusers = ap₂ (λ h n. hashtbl_erase h (some n)) kept.lusers kept.name;
        destroyed = ap₂ (◌∷◌) kept.pipe kept.destroyed;
      },
    )
  where
    twice : (t : Bool) → t ≡ (t || t)
    twice true = refl
    twice false = refl

    is_some-freed :
        (chan : ℕ) (w : World) (c : Channel) (d : ℕ)
        → is_some ((freed chan w c).chans d) ≡ (if chan == d then false else is_some (w.chans d))
    is_some-freed chan w c d = elim (Bool-cases (chan == d)) [
      | inl e ↦ rw e refl
      | inr e ↦ rw e refl
    ]

-- Where both records agree, and have nothing twice, and the table of names is valid, rmchan of a
-- channel that is there touches no freed user and no freed channel; the records agree afterwards too,
-- nobody is on the channel, and who is on other channels is as before. The channel is freed and no
-- other is; nothing is found under its name up to case, and under other names what was found before;
-- destroy_pipe is called once, for its pipe.
pub rmchan-IsRemoved :
    (chan : ℕ) (w : World) (c : Channel)
    → w.chans chan ≡ some c
    → IsWorld w
    → IsValid w.lusers
    → (w' : World) × (rmchan chan w ≡ some w') × IsRemoved chan c w w'
rmchan-IsRemoved chan w c hc v names =
    let (w', run, gone) = rmchan-IsGone chan w c hc v in
    (
      w',
      run,
      record {
        off = gone.off;
        chans = gone.chans;
        lusers = λ q.
            ap (λ h. hashtbl_seek h (some q)) gone.lusers
            ∙ seek-erase_valid w.lusers c.name q names;
        destroyed = gone.destroyed;
      },
    )
