-- ===== src/Tests/Server.antt =====
-- src/cmd.c: a server with two users, one of them not let in yet, and a request to it.
use ape_server.Prelude.{
  ◌≡◌, ◌≢◌, sym, subst, true, false, Option, none, some, [], ◌∷◌, update, replicate,
}
use ape_server.Prelude.Text.{CString, codes, casecmp, lower, tolower, str_eq}
use ape_server.Hash.{hashtbl_init, hashtbl_append, hashtbl_seek}
use ape_server.Hash.Items.{hashtbl_init-IsValid}
use ape_server.Transports.{longpolling, xhrstreaming}
use ape_server.Pipes.{Pipes}
use ape_server.Json.{Items, end}
use ape_server.Json.Values.{v_str, member, no_members, member_items}
use ape_server.Users.Connections.{Connection, new_connection}
use ape_server.Commands.{
  Func, Registry, need_sessid, need_nothing, return_nothing, register_cmd, callback_of,
}
use ape_server.Commands.Server.{Server, User, Sub}
use ape_server.Commands.Call.{Call, CmdProcess}
use ape_server.Commands.Registered.{callback_of-found, register_cmd-callback}

abbrev pub nothing_done : Func Call
nothing_done c = some (return_nothing, c)

abbrev pub empty : Registry Call
empty = record { callbacks = hashtbl_init; cmd_hook = []; bad_cmd_callbacks = [] }

abbrev pub commands : Registry Call
commands = register_cmd (codes "CHECK") nothing_done need_sessid empty

pub check_found :
    hashtbl_seek commands.callbacks (some (codes "check"))
    ≡ some (record { func = nothing_done; need = need_sessid })
unfolding casecmp str_eq lower tolower
check_found =
    (register_cmd-callback (codes "CHECK") (codes "check") nothing_done need_sessid empty
      hashtbl_init-IsValid).0

abbrev pub known_id : CString
known_id = replicate 32 b'a'

abbrev pub first_id : CString
first_id = replicate 32 b'b'

abbrev pub second_id : CString
second_id = replicate 32 b'c'

abbrev pub pipes : Pipes
pipes = record {
  heap = λ _. none;
  hash_pubid = hashtbl_init;
  hash_sessid = hashtbl_append hashtbl_init (some known_id) 1;
}

-- a connection of the host "2" that is alive
abbrev pub old : Connection
old = record (new_connection 5 7 (codes "2") 10) { alive = true }

abbrev pub known : User
known = record {
  sessid = known_id;
  ip = codes "127.0.0.1";
  transport = xhrstreaming;
  idle = 10;
  human = true;
  istmp = false;
  cmdqueue = end;
  subuser = old ∷ [];
  nsub = 1;
}

-- one who is not let in yet, and has no connection
abbrev pub waiting : User
waiting = record known { istmp = true; subuser = []; nsub = 0 }

abbrev pub server : Server
server = record {
  users = update (update (λ _. none) 2 (some waiting)) 1 (some known);
  list = 2 ∷ 1 ∷ [];
  connected = 1;
  pipes = pipes;
  heap = λ _. none;
  fresh = 20;
  shut = [];
  freed = [];
  attach = λ _. none;
  inline = [];
  draws = (first_id ∷ []) ∷ (second_id ∷ []) ∷ [];
  time = 100;
}

abbrev pub request : CmdProcess
request = record {
  guser = none;
  sub = none;
  client = 8;
  host = codes "2";
  ip = codes "127.0.0.1";
  transport = longpolling;
}

-- {"cmd":"check"}
abbrev pub check : Items
check = member_items true (member (codes "cmd") (v_str (codes "check")) no_members)

pub check_needs : (callback_of (codes "check") commands).need ≢ need_nothing
check_needs =
    subst (λ c. c.need ≢ need_nothing)
      (sym (
        callback_of-found (codes "check") commands
          (record { func = nothing_done; need = need_sessid }) check_found))
      λ e. cc

pub no_restor : Sub → Server → Option Server
no_restor sub s = some s
