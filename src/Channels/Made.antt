-- ===== src/Channels/Made.antt =====
-- mkchan and getchan of src/channel.c, over the table of channels and the pipes. The identifier of
-- the new pipe is drawn from a list; `none` is the want of a free one among them.
use ape_server.Prelude.{
  ℕ, suc, ◌+◌, ◌≤◌, ◌≡◌, refl, ap₂, arith, All, Bool, true, false, ◌||◌, Bool-cases, inl, inr,
  Option, none, some, List, [], ◌∷◌, ◌==◌, ltb, if◌then◌else◌, length,
}
use ape_server.Prelude.Text.{CString, lower, tolower, casecmp}
use ape_server.Hash.{hashtbl_append, hashtbl_seek}
use ape_server.Hash.Items.{IsValid, hashtbl_append-IsValid}
use ape_server.Hash.Seek.{seek-append}
use ape_server.Raw.Send.{◌>>=◌}
use ape_server.Pipes.{Pipes, channel_pipe, gen_sessid_new, init_pipe, get_pipe}
use ape_server.Pipes.Known.{init_pipe-get_pipe}
use ape_server.Channels.{Channel, World, set_chan}
use ape_server.Channels.Names.{check_star, isvalidchan, check_name-IsPlain, max_chan_len}

-- users and channels, pipes, and the next free address
pub record Directory : Type 0 where
  pub world : World
  pub pipes : Pipes
  pub fresh : ℕ

abbrev begins_with_star : CString → Bool
begins_with_star [] = false
begins_with_star (c ∷ s) = c == b'*'

abbrev pub new_channel : CString → Bool → Bool → ℕ → Channel
new_channel name noninteractive autodestroy pipe = record {
  name = name;
  head = [];
  banned = [];
  noninteractive = noninteractive || begins_with_star name;
  autodestroy = autodestroy;
  pipe = pipe;
}

abbrev pub put_channel : CString → Channel → CString → Directory → Directory
put_channel name chan id d = record {
  world = record (set_chan d.fresh chan d.world) {
    lusers = hashtbl_append d.world.lusers (some name) d.fresh;
  };
  pipes = init_pipe (suc d.fresh) d.fresh channel_pipe id d.pipes;
  fresh = d.fresh + 2;
}

-- The channel, or NULL; `flags` are two tests. The name of the caller is made lower case in place,
-- also where it is refused.
unfoldable pub mkchan :
    CString → Bool → Bool → List CString → Directory → Option (CString × Option ℕ × Directory)
mkchan chan noninteractive autodestroy ids d =
    let (name, ok) = isvalidchan chan in
    if ok
    then (gen_sessid_new ids d.pipes >>= λ id. some (
      name,
      some d.fresh,
      put_channel name (new_channel name noninteractive autodestroy (suc d.fresh)) id d,
    ))
    else some (name, none, d)

unfoldable pub getchan : CString → World → Option ℕ
getchan chan w = if ltb max_chan_len (length chan) then none else hashtbl_seek w.lusers (some chan)

tolower-star : (c : ℕ) → (c == b'*') ≡ true → c ≡ tolower c
unfolding tolower
tolower-star c star = ground (arith, star)

check_star-lower : (s : CString) → (check_star s).1 ≡ true → (check_star s).0 ≡ lower s
unfolding check_star lower tolower
check_star-lower [] ok = refl
check_star-lower (c ∷ s) ok = elim (Bool-cases (c == b'*')) [
  | inl star ↦ rw star (ap₂ (◌∷◌) (tolower-star c star) (check_name-IsPlain s (rw star at ok)).0)
  | inr other ↦ rw other ((check_name-IsPlain (c ∷ s) (rw other at ok)).0)
]

isvalidchan-lower :
    (s : CString)
    → (isvalidchan s).1 ≡ true
    → ((isvalidchan s).0 ≡ lower s) × (length s ≤ max_chan_len)
unfolding isvalidchan
isvalidchan-lower s ok = elim (Bool-cases (ltb max_chan_len (length s))) [
  | inl long ↦ absurd (ground (arith, rw long at ok))
  | inr short ↦ rw short (check_star-lower s (rw short at ok), ground (arith, short))
]

tolower-tolower : (c : ℕ) → tolower (tolower c) ≡ tolower c
unfolding tolower
tolower-tolower c = ground arith

lower-lower : (s : CString) → lower (lower s) ≡ lower s
unfolding lower
lower-lower [] = refl
lower-lower (c ∷ s) = ap₂ (◌∷◌) (tolower-tolower c) (lower-lower s)

casecmp-lower : (s q : CString) → casecmp (lower s) q ≡ casecmp s q
unfolding casecmp
casecmp-lower s q = rw (lower-lower s) refl

-- A channel of a valid name is made where an identifier is drawn, among those of 32 letters: it is
-- empty, with the name in lower case. From then on getchan finds it under its name up to case, and
-- what it found before under every other name of at most 40 letters. The table of channels stays
-- valid if it was. The new pipe is found by the identifier drawn, and a pipe that was found before is
-- found still.
pub mkchan-getchan :
    (chan q : CString) (noninteractive autodestroy : Bool) (ids : List CString) (d : Directory)
    (id known : CString) (a : ℕ)
    → (isvalidchan chan).1 ≡ true
    → length q ≤ max_chan_len
    → IsValid d.world.lusers
    → All (λ i. length i ≡ 32) ids
    → gen_sessid_new ids d.pipes ≡ some id
    → get_pipe known d.pipes ≡ some a
    → (d' : Directory) × (mkchan chan noninteractive autodestroy ids d
        ≡ some (lower chan, some d.fresh, d'))
      × (d'.world.chans d.fresh
          ≡ some (new_channel (lower chan) noninteractive autodestroy (suc d.fresh)))
      × (getchan q d'.world ≡ (if casecmp chan q then some d.fresh else getchan q d.world))
      × IsValid d'.world.lusers
      × (get_pipe id d'.pipes ≡ some (suc d.fresh))
      × (get_pipe known d'.pipes ≡ some a)
unfolding mkchan getchan
mkchan-getchan chan q noninteractive autodestroy ids d id known a ok short valid long drawn there =
    let name = lower chan in
    let (low, _) = isvalidchan-lower chan ok in
    let (new, still) =
      init_pipe-get_pipe ids id d.pipes (suc d.fresh) d.fresh channel_pipe known a long drawn
        there in
    let fits : ltb max_chan_len (length q) ≡ false = ground (arith, short) in
    (
      put_channel name (new_channel name noninteractive autodestroy (suc d.fresh)) id d,
      rw (ok, low, drawn) refl,
      ground arith,
      rw (fits, seek-append d.world.lusers name q d.fresh, casecmp-lower chan q) refl,
      hashtbl_append-IsValid d.world.lusers (some name) d.fresh valid,
      new,
      still,
    )
