-- ===== src/Tests/Arrivals.antt =====
-- src/cmd.c, src/users.c: connections of users who are known and of new ones.
use ape_server.Prelude.{ℕ, ◌≡◌, refl, arith, none, some, [], ◌∷◌, replicate, length-replicate}
use ape_server.Prelude.Text.{CString, codes, casecmp, casecmp_refl, lower, tolower, str_eq}
use ape_server.Hash.{hashtbl_init}
use ape_server.Hash.Seek.{seek-append, hashtbl_seek-init}
use ape_server.Pipes.{gen_sessid_new, seek_user_id, get_pipe}
use ape_server.Users.Connections
use ape_server.Users.Connections.{Connection, max_host_length, new_connection}
use ape_server.Commands.{callback_of}
use ape_server.Commands.Server.{Server, find_at, allocate_user}
use ape_server.Commands.Attach.{Attached, open_same_host}
use ape_server.Commands.Process.{process_for}
use ape_server.Commands.Attaching.{
  Parts, IsSwitched, process_for-long_host, open_same_host-IsSwitched,
}
use ape_server.Commands.Connecting.{fresh_user, allocate_user-seek_user_id}
use ape_server.Tests.Server.{
  check, commands, first_id, known, known_id, no_restor, old, pipes, request, second_id, server,
  waiting,
}

abbrev long_host : CString
long_host = replicate 300 b'1'

process_for-long_host_example :
    process_for no_restor commands check
      (codes "check")
      (callback_of (codes "check") commands)
      (some 2)
      (record request { host = long_host })
      none
      server
    ≡ none
unfolding Connections.getsubuser
process_for-long_host_example =
    process_for-long_host no_restor commands check (codes "check")
      (callback_of (codes "check") commands) (record request { host = long_host }) none server 2
      waiting refl refl refl (omega (arith, length-replicate {A = ℕ} 300 b'1'))

open_same_host-IsSwitched_example :
    (a : Attached) × (kept : ℕ) × (closed : ℕ) × (open_same_host old
        (record { user = 1; address = 5 })
        request
        server
      ≡ some a)
    × Parts 7 8 kept closed
    × IsSwitched (record { user = 1; address = 5 }) [] a kept closed
unfolding find_at
open_same_host-IsSwitched_example =
    open_same_host-IsSwitched (record { user = 1; address = 5 }) server known old request refl refl

drawn : gen_sessid_new (first_id ∷ []) pipes ≡ some first_id
unfolding gen_sessid_new get_pipe seek_user_id casecmp str_eq lower tolower
drawn =
    rw
      (
        gen_sessid_new,
        seek-append (hashtbl_init {V = ℕ}) known_id first_id 1,
        hashtbl_seek-init first_id,
      )
      refl

drawn_then : gen_sessid_new (second_id ∷ []) pipes ≡ some second_id
unfolding gen_sessid_new get_pipe seek_user_id casecmp str_eq lower tolower
drawn_then =
    rw
      (
        gen_sessid_new,
        seek-append (hashtbl_init {V = ℕ}) known_id second_id 1,
        hashtbl_seek-init second_id,
      )
      refl

session_known : seek_user_id known_id pipes ≡ some 1
unfolding seek_user_id
session_known =
    rw (seek-append (hashtbl_init {V = ℕ}) known_id known_id 1, casecmp_refl known_id) refl

allocate_user-seek_user_id_example :
    (s' : Server) × (allocate_user 8 (codes "3") (codes "127.0.0.1") server ≡ some (20, s'))
    × (s'.users 20
        ≡ some (
            fresh_user 8
              (codes "3")
              (codes "127.0.0.1")
              server
              (first_id ∷ [])
              (second_id ∷ [])
              []
              first_id
              second_id
              refl
              drawn
              drawn_then
              (omega arith)))
    × (seek_user_id first_id s'.pipes ≡ some 20)
    × (seek_user_id known_id s'.pipes ≡ some 1)
allocate_user-seek_user_id_example =
    allocate_user-seek_user_id 8 (codes "3") (codes "127.0.0.1") server (first_id ∷ [])
      (second_id ∷ []) [] first_id second_id refl drawn drawn_then (omega arith) known_id 1
      (refl, tt) session_known
