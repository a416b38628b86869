-- ===== src/Channels.antt =====
-- Users and channels (src/channel.c, and isonchannel of src/users.c): who is on which channel is
-- kept twice, in the list of users of each channel and in the list of channels of each user.
-- The messages are kept as what is posted to whom, in order; their JSON is left out. No plugin is
-- hooked on an event. `none` is an access to a user or to a channel that is freed.

pub mod Links
pub mod Leave
pub mod Quit
pub mod Freeing
pub mod Remove
pub mod Levels
pub mod Bans
pub mod Names
pub mod Made
use ape_server.Prelude.{
  ℕ, Bool, true, false, not, ◌&&◌, ◌||◌, Option, none, some, List, [], ◌∷◌, ◌++◌, map, ◌==◌, ltb,
  if◌then◌else◌, update, remove,
}
use ape_server.Prelude.Text.{CString}
use ape_server.Hash.{Htbl, hashtbl_erase}
use ape_server.Raw.Send.{◌>>=◌}

-- struct userslist
pub record Member : Type 0 where
  pub userinfo : ℕ
  pub level : ℕ

-- struct BANNED; the reason is left out
pub record Banned : Type 0 where
  pub ip : CString
  pub expire : ℕ

-- struct CHANNEL with its two flags and the address of its pipe
pub record Channel : Type 0 where
  pub name : CString
  pub head : List Member
  pub banned : List Banned
  pub noninteractive : Bool
  pub autodestroy : Bool
  pub pipe : ℕ

-- struct USERS, as far as channels read and write it; `autoop` is FLG_AUTOOP
pub record User : Type 0 where
  pub ip : CString
  pub chan_foot : List ℕ
  pub autoop : Bool

pub data Message : Type 0 where
  raw_join : ℕ → ℕ → Message
  raw_channel : ℕ → Option (List Member) → Message
  raw_left : ℕ → ℕ → Message
  raw_setlevel : ℕ → ℕ → Option ℕ → ℕ → Message
  setlevel_error : Message
  raw_ban : ℕ → Message

-- The users and the channels by address, the channels by name, what was posted, and the pipes that
-- destroy_pipe was called for, the latest first. What destroy_pipe does with a pipe stands in Pipes.
pub record World : Type 0 where
  pub users : ℕ → Option User
  pub chans : ℕ → Option Channel
  pub lusers : Htbl ℕ
  pub posted : List (ℕ × Message)
  pub destroyed : List ℕ

abbrev pub members : List Member → List ℕ
members list = map (λ m. m.userinfo) list

abbrev pub set_user : ℕ → User → World → World
set_user u user w = record w { users = update w.users u (some user) }

abbrev pub set_chan : ℕ → Channel → World → World
set_chan c chan w = record w { chans = update w.chans c (some chan) }

-- post_raw to each
abbrev pub post : List ℕ → Message → World → World
post to m w = record w { posted = w.posted ++ map (λ u. (u, m)) to }

unfoldable pub has : ℕ → List ℕ → Bool
has x [] = false
has x (y ∷ ys) = if y == x then true else has x ys

unfoldable pub isonchannel : ℕ → ℕ → World → Option Bool
unfolding has
isonchannel user chan w = do u ← w.users user; some (has chan u.chan_foot)

-- the receivers of post_raw_channel_restricted
unfoldable pub all_but : ℕ → List ℕ → List ℕ
all_but u [] = []
all_but u (v ∷ vs) = if v == u then all_but u vs else v ∷ all_but u vs

-- the announcement to those who were there
abbrev pub announce : ℕ → ℕ → List Member → List Member → World → World
announce user chan [] head w = w
announce user chan (m ∷ ms) head w = post (all_but user (members head)) (raw_join user chan) w

-- both lists, with the user on the channel
abbrev pub entered : ℕ → ℕ → User → Channel → World → World
entered user chan u c w =
    set_user user (record u { chan_foot = chan ∷ u.chan_foot })
      (set_chan chan (record c { head = record { userinfo = user; level = 1 } ∷ c.head }) w)

-- raw_join and raw_channel; the list of users is not told on a channel that is not interactive
unfoldable pub tell_joined : ℕ → ℕ → Bool → List Member → World → World
unfolding all_but
tell_joined user chan true before w = post (user ∷ []) (raw_channel chan none) w
tell_joined user chan false before w =
    let head : List Member = record { userinfo = user; level = 1 } ∷ before in
    post (user ∷ []) (raw_channel chan (some head)) (announce user chan before head w)

unfoldable pub enter : ℕ → ℕ → World → Option World
unfolding tell_joined
enter user chan w = do
  u ← w.users user
  c ← w.chans chan
  some (tell_joined user chan c.noninteractive c.head (entered user chan u c w))

unfoldable pub join : ℕ → ℕ → World → Option World
unfolding isonchannel enter
join user chan w = do on ← isonchannel user chan w; if on then some w else enter user chan w

-- the first of the list who is the user goes
unfoldable pub without : ℕ → List Member → List Member
without user [] = []
without user (m ∷ ms) = if m.userinfo == user then ms else m ∷ without user ms

-- What follows when `user` is unlinked: `destroy` stands for the call of rmchan.
-- The channel by its flags and the members that it still has.
unfoldable pub tell_left :
    (ℕ → World → Option World) → ℕ → ℕ → Bool → Bool → List Member → World → Option World
tell_left destroy user chan autodestroy quiet [] w = if autodestroy then destroy chan w else some w
tell_left destroy user chan autodestroy true (m ∷ ms) w = some w
tell_left destroy user chan autodestroy false (m ∷ ms) w =
    some (post (members (m ∷ ms)) (raw_left user chan) w)

-- both lists, without the user on the channel
abbrev pub quitted : ℕ → ℕ → User → Channel → World → World
quitted user chan u c w =
    set_chan chan (record c { head = without user c.head })
      (set_user user (record u { chan_foot = remove chan u.chan_foot }) w)

unfoldable pub unlink : (ℕ → World → Option World) → ℕ → ℕ → World → Option World
unfolding has without tell_left
unlink destroy user chan w = do
  u ← w.users user
  c ← w.chans chan
  if has user (members c.head)
      then tell_left destroy user chan c.autodestroy c.noninteractive (without user c.head)
          (post (user ∷ []) (raw_left user chan) (quitted user chan u c w))
      else some (set_user user (record u { chan_foot = remove chan u.chan_foot }) w)

unfoldable pub left_by : (ℕ → World → Option World) → ℕ → ℕ → World → Option World
unfolding isonchannel unlink
left_by destroy user chan w = do
  on ← isonchannel user chan w
  if on then unlink destroy user chan w else some w

-- The loop of rmchan. The channel does not destroy itself here, so left never calls rmchan again.
unfoldable pub left_each : List ℕ → ℕ → World → Option World
unfolding left_by
left_each [] chan w = some w
left_each (user ∷ users) chan w = do
  w' ← left_by (λ chan w. none) user chan w
  left_each users chan w'

-- `if (chan->head != NULL)`: the channel is made quiet, so that only those who leave are told
unfoldable pub empty_out : List Member → ℕ → Channel → World → Option World
unfolding left_each
empty_out [] chan c w = some w
empty_out (m ∷ ms) chan c w =
    left_each (members (m ∷ ms)) chan
      (set_chan chan (record c { noninteractive = true; autodestroy = false }) w)

-- rmallban and clear_properties free what only the channel has.
unfoldable pub rmchan : ℕ → World → Option World
unfolding empty_out
rmchan chan w = do
  c ← w.chans chan
  w₁ ← empty_out c.head chan c w
  c₁ ← w₁.chans chan
  some (record w₁ {
    lusers = hashtbl_erase w₁.lusers (some c₁.name);
    chans = update w₁.chans chan none;
    destroyed = c₁.pipe ∷ w₁.destroyed;
  })

unfoldable pub left : ℕ → ℕ → World → Option World
unfolding left_by rmchan
left user chan w = left_by rmchan user chan w

unfoldable pub left_chans : List ℕ → ℕ → World → Option World
unfolding left
left_chans [] user w = some w
left_chans (chan ∷ chans) user w = do w' ← left user chan w; left_chans chans user w'

unfoldable pub left_all : ℕ → World → Option World
unfolding left_chans
left_all user w = do u ← w.users user; left_chans u.chan_foot user w
