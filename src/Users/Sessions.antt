-- ===== src/Users/Sessions.antt =====
-- The session of a user (src/users.c, src/users.h): a list of keys with their values, the newest
-- first, and the sum of the lengths of the values.
pub mod Stored
use ape_server.Prelude.{
  ℕ, suc, ◌+◌, ◌-◌, ◌≤◌, ◌≡◌, refl, ap, Bool, true, false, ◌||◌, Option, none, some, List, [], ◌∷◌,
  arith, ltb, if◌then◌else◌, length, All, Bool-cases, inl, inr,
}
use ape_server.Prelude.Text.{CString, str_eq, eq_of_str_eq, str_eq-other}

pub record Session : Type 0 where
  pub key : CString
  pub val : CString

-- a connection of the user, as far as sendback_session reads and writes it
pub record Connection : Type 0 where
  pub channel : CString
  pub need_update : Bool

-- `size` is sessions.length
pub record User : Type 0 where
  pub sessions : List Session
  pub size : ℕ
  pub subuser : List Connection

abbrev pub max_session_length : ℕ
max_session_length = 102400

unfoldable pub find_session : List Session → CString → Option Session
find_session [] key = none
find_session (s ∷ rest) key = if str_eq s.key key then some s else find_session rest key

unfoldable pub get_session : User → CString → Option Session
unfolding find_session
get_session user key = if ltb 32 (length key) then none else find_session user.sessions key

unfoldable pub clear_sessions : User → User
clear_sessions user = record user { sessions = []; size = 0 }

-- The connections that wait for an update are told of the session, each by its channel.
unfoldable pub sendback_session : List Connection → List Connection × List CString
sendback_session [] = ([], [])
sendback_session (c ∷ subs) =
    let (left, told) = sendback_session subs in
    if c.need_update
    then (record c { need_update = false } ∷ left, c.channel ∷ told)
    else (c ∷ left, told)

-- the value of the first session with the key is written over
unfoldable pub overwrite : CString → CString → List Session → List Session
overwrite key val [] = []
overwrite key val (s ∷ rest) =
    if str_eq s.key key then record s { val = val } ∷ rest else s ∷ overwrite key val rest

abbrev pub sent_back : Bool → User → User × List CString
sent_back false user = (user, [])
sent_back true user =
    let (subs, told) = sendback_session user.subuser in (record user { subuser = subs }, told)

-- The user, and the connections that are told. The length is an `int` in the source; the difference
-- that is added to it can be negative.
unfoldable pub set_session : User → CString → CString → Bool → Option (User × List CString)
unfolding get_session overwrite
set_session user key val update =
    if ltb 32 (length key) || ltb max_session_length (user.size + length val)
    then none
    else elim (get_session user key) [
      | some s ↦ some (
          sent_back update (record user {
            sessions = overwrite key val user.sessions;
            size = user.size + length val - length s.val;
          }))
      | none ↦ some (
          sent_back update (record user {
            sessions = record { key = key; val = val } ∷ user.sessions;
            size = user.size + length val;
          }))
    ]
