-- ===== src/Tests/Known.antt =====
-- src/pipe.c, src/channel.c: a pipe with a link, and a new channel.
use ape_server.Prelude.{
  ℕ, ◌≡◌, refl, Option, none, [], ◌∷◌, arith, true, false, some, ◌==◌, if◌then◌else◌, update,
}
use ape_server.Prelude.Text.{CString, codes, casecmp, casecmp_refl, str_eq, lower, tolower}
use ape_server.Hash.{hashtbl_init, hashtbl_append}
use ape_server.Hash.Items.{IsValid, hashtbl_init-IsValid, hashtbl_append-IsValid}
use ape_server.Hash.Seek.{seek-append, hashtbl_seek-init}
use ape_server.Pipes.{
  user_pipe, Transpipe, Pipes, get_pipe, seek_user_id, gen_sessid_new, Unlinked, destroy_pipe,
}
use ape_server.Pipes.Known.{Called, all_called, called, destroy_pipe-get_pipe}
use ape_server.Channels.{World}
use ape_server.Channels.Names.{isvalidchan}
use ape_server.Channels.Made.{Directory, new_channel, mkchan, getchan, mkchan-getchan}

abbrev first_id : CString
first_id = codes "0123456789abcdef0123456789abcdef"

abbrev second_id : CString
second_id = codes "fedcba9876543210fedcba9876543210"

abbrev linked : Transpipe
linked = record {
  pipe = 5;
  type = user_pipe;
  link = record { plink = 2; on_unlink = some 9 } ∷ [];
  pubid = first_id;
}

abbrev server : Pipes
server = record {
  heap = update (λ _. none) 1 (some linked);
  hash_pubid = hashtbl_append hashtbl_init (some first_id) 1;
  hash_sessid = hashtbl_init;
}

server-IsValid : IsValid server.hash_pubid
server-IsValid = hashtbl_append-IsValid hashtbl_init (some first_id) 1 hashtbl_init-IsValid

drawn : gen_sessid_new (second_id ∷ []) server ≡ some second_id
unfolding gen_sessid_new get_pipe seek_user_id casecmp str_eq lower tolower
drawn =
    rw
      (
        gen_sessid_new,
        hashtbl_seek-init second_id,
        seek-append (hashtbl_init {V = ℕ}) first_id second_id 1,
        hashtbl_seek-init second_id,
      )
      refl

found : get_pipe first_id server ≡ some 1
unfolding get_pipe
found = rw (seek-append (hashtbl_init {V = ℕ}) first_id first_id 1, casecmp_refl first_id) refl

abbrev nobody : World
nobody = record {
  users = λ _. none;
  chans = λ _. none;
  lusers = hashtbl_init;
  posted = [];
  destroyed = [];
}

abbrev directory : Directory
directory = record { world = nobody; pipes = server; fresh = 10 }

mkchan-getchan_example :
    (d' : Directory) × (mkchan (codes "*Room_1") false true (second_id ∷ []) directory
      ≡ some (lower (codes "*Room_1"), some 10, d'))
    × (d'.world.chans 10 ≡ some (new_channel (lower (codes "*Room_1")) false true 11))
    × (getchan (codes "*ROOM_1") d'.world ≡ (
        if casecmp (codes "*Room_1") (codes "*ROOM_1")
        then some 10
        else getchan (codes "*ROOM_1") nobody))
    × IsValid d'.world.lusers
    × (get_pipe second_id d'.pipes ≡ some 11)
    × (get_pipe first_id d'.pipes ≡ some 1)
unfolding isvalidchan tolower
mkchan-getchan_example =
    mkchan-getchan (codes "*Room_1") (codes "*ROOM_1") false true (second_id ∷ []) directory
      second_id first_id 1 refl (omega arith) hashtbl_init-IsValid (refl, tt) drawn found

-- the callback 9 does nothing
abbrev idle : Unlinked → Pipes → Option Pipes
idle call s = some s

linked-Called : Called idle 1 linked.link server server
linked-Called = called _ [] 9 server server server refl refl (all_called server)

destroy_pipe-get_pipe_example :
    (s' : Pipes) × (destroy_pipe idle 1 server ≡ some s')
    × ((b : ℕ) → s'.heap b ≡ (if 1 == b then none else server.heap b))
    × (get_pipe first_id s'
        ≡ (if casecmp first_id first_id then none else get_pipe first_id server))
destroy_pipe-get_pipe_example =
    destroy_pipe-get_pipe idle 1 linked linked server server first_id refl linked-Called refl
      server-IsValid
