-- ===== src/Commands/Server.antt =====
-- The state that commands work on, and what they do to users and connections: init_user and adduser
-- of src/users.c, and the functions of the connections for the user at an address.
use ape_server.Prelude.{
  ℕ, suc, ◌+◌, ◌||◌, Bool, true, false, Option, none, some, is_some, List, [], ◌∷◌, ◌==◌, ltb,
  if◌then◌else◌, length, update,
}
use ape_server.Prelude.Text.{CString}
use ape_server.Strings.Numbers.{pos}
use ape_server.Hash.{hashtbl_append}
use ape_server.Raw.Heap.{Heap, Raw}
use ape_server.Raw.Forge.{forge_raw}
use ape_server.Raw.Send.{◌>>=◌}
use ape_server.Transports.{Transport, longpolling}
use ape_server.Pipes.{Pipes, user_pipe, gen_sessid_new, init_pipe}
use ape_server.Json.{Items, end, Node}
use ape_server.Json.Values.{decimal}
use ape_server.Users.Connections
use ape_server.Users.Connections.{Connection, World, max_host_length}

-- USERS, as far as commands read and write it
pub record User : Type 0 where
  pub sessid : CString
  pub ip : CString
  pub transport : Transport
  pub idle : ℕ
  pub human : Bool
  pub istmp : Bool
  pub cmdqueue : Items
  pub subuser : List Connection
  pub nsub : ℕ

-- a call of send_raw_inline
pub record Inline : Type 0 where
  pub client : ℕ
  pub transport : Transport
  pub content : CString

-- The users by address, uHead first; the raws; co[fd]->attach; what is sent inline, the latest first;
-- the identifiers that each call of gen_sessid_new draws; time(NULL), and its decimals.
pub record Server : Type 0 where
  pub users : ℕ → Option User
  pub list : List ℕ
  pub connected : ℕ
  pub pipes : Pipes
  pub heap : Heap
  pub fresh : ℕ
  pub shut : List ℕ
  pub freed : List ℕ
  pub attach : ℕ → Option ℕ
  pub inline : List Inline
  pub draws : List (List CString)
  pub time : ℕ

-- a connection: the addresses of its user and of itself
pub record Sub : Type 0 where
  pub user : ℕ
  pub address : ℕ

unfoldable pub change_user : (User → User) → ℕ → Server → Option Server
change_user f u s =
    s.users u >>= λ user. some (record s { users = update s.users u (some (f user)) })

-- the first of the list at the address
unfoldable pub find_at : ℕ → List Connection → Option Connection
find_at a [] = none
find_at a (c ∷ cs) = if c.address == a then some c else find_at a cs

unfoldable pub replace_at : ℕ → Connection → List Connection → List Connection
replace_at a new [] = []
replace_at a new (c ∷ cs) = if c.address == a then new ∷ cs else c ∷ replace_at a new cs

unfoldable pub the_sub : Sub → Server → Option Connection
unfolding find_at
the_sub sub s = s.users sub.user >>= λ user. find_at sub.address user.subuser

unfoldable pub put_sub : Sub → Connection → Server → Option Server
unfolding replace_at change_user
put_sub sub c =
    change_user (λ user. record user { subuser = replace_at sub.address c user.subuser }) sub.user

unfoldable pub change_sub : (Connection → Connection) → Sub → Server → Option Server
unfolding the_sub put_sub
change_sub f sub s = the_sub sub s >>= λ c. put_sub sub (f c) s

abbrev sub_of : ℕ → Option Connection → Option Sub
sub_of u none = none
sub_of u (some c) = some (record { user = u; address = c.address })

-- the outer `none` is an access to a user that is freed, the inner one is NULL
unfoldable pub getsubuser : ℕ → CString → Server → Option (Option Sub)
getsubuser u host s =
    s.users u >>= λ user. some (sub_of u (Connections.getsubuser user.subuser host))

abbrev pub world_of : Server → User → World
world_of s user = record {
  heap = s.heap;
  subuser = user.subuser;
  nsub = user.nsub;
  shut = s.shut;
  freed = s.freed;
}

abbrev pub with_world : ℕ → User → Server → World → Server
with_world u user s w = record s {
  users = update s.users u (some (record user { subuser = w.subuser; nsub = w.nsub }));
  heap = w.heap;
  shut = w.shut;
  freed = w.freed;
  fresh = suc s.fresh;
}

-- The new connection, at a new address; NULL where there is one of the host, or the host is too long.
unfoldable pub addsubuser : ℕ → CString → ℕ → Server → Option (Option Sub × Server)
addsubuser client host u s = do
  user ← s.users u
  w ← Connections.addsubuser s.fresh client host s.time (world_of s user)
  some (
    if is_some (Connections.getsubuser user.subuser host) || ltb max_host_length (length host)
        then none
        else some (record { user = u; address = s.fresh }),
    with_world u user s w,
  )

-- A new raw on the heap, which is posted on the connection.
unfoldable pub post_raw_sub : Raw → Sub → Server → Option Server
unfolding the_sub put_sub
post_raw_sub raw sub s = do
  c ← the_sub sub s
  let heap = update s.heap s.fresh (some raw)
  c' ← Connections.post_raw_sub s.fresh heap c
  put_sub sub c' (record s { heap = heap; fresh = suc s.fresh })

unfoldable pub forge : CString → Node → Server → Option Raw
forge name jlist s = forge_raw (decimal (pos s.time)) name jlist

unfoldable pub send_inline : ℕ → Transport → Raw → Server → Server
send_inline client transport raw s = record s {
  inline = record { client = client; transport = transport; content = raw.content } ∷ s.inline;
}

-- what gen_sessid_new draws now
unfoldable pub draw : Server → Option (CString × Server)
draw s = elim s.draws [
  | [] ↦ none
  | ids ∷ draws ↦ gen_sessid_new ids s.pipes >>= λ id. some (id, record s { draws = draws })
]

-- a user of no connections yet, the first of the list
unfoldable pub init_user : Server → Option (ℕ × Server)
unfolding draw
init_user s = do
  (sessid, s') ← draw s
  let user : User = record {
    sessid = sessid;
    ip = [];
    transport = longpolling;
    idle = s.time;
    human = true;
    istmp = false;
    cmdqueue = end;
    subuser = [];
    nsub = 0;
  }
  some (
    s.fresh,
    record s' {
      users = update s.users s.fresh (some user);
      list = s.fresh ∷ s.list;
      fresh = suc s.fresh;
    },
  )

-- adduser(client, host, ip, NULL): the pipe, the session and the first connection of a user who is
-- not yet let in
unfoldable pub allocate_user : ℕ → CString → CString → Server → Option (ℕ × Server)
unfolding init_user draw change_user addsubuser
allocate_user client host ip s = do
  (u, s₁) ← init_user s
  (pubid, s₂) ← draw s₁
  let pipes = init_pipe s₂.fresh u user_pipe pubid s₂.pipes
  s₃ ←
      change_user (λ user. record user { ip = ip; istmp = true }) u
        (record s₂ { pipes = pipes; fresh = suc s₂.fresh })
  user ← s₃.users u
  let hashed = hashtbl_append s₃.pipes.hash_sessid (some user.sessid) u
  (_, s₄) ←
      addsubuser client host u (record s₃ { pipes = record s₃.pipes { hash_sessid = hashed } })
  some (u, s₄)

-- adduser(NULL, NULL, NULL, user): the user is let in
unfoldable pub admit_user : ℕ → Server → Option Server
unfolding change_user
admit_user u s =
    change_user (λ user. record user { istmp = false }) u (record s { connected = s.connected + 1 })
