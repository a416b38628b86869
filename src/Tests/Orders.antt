-- ===== src/Tests/Orders.antt =====
-- src/cmd.c: commands of a server with two users, one of them not let in yet.
use ape_server.Prelude.{◌≡◌, refl, true, none, some, if◌then◌else◌, update}
use ape_server.Prelude.Text.{codes, casecmp}
use ape_server.Strings.Numbers.{pos}
use ape_server.Hash.{hashtbl_seek}
use ape_server.Hash.Items.{IsValid, hashtbl_init-IsValid}
use ape_server.Raw.Send.{◌>>=◌}
use ape_server.Transports.{longpolling}
use ape_server.Json.{Items, end}
use ape_server.Json.Copies.{each_text}
use ape_server.Json.Values.{children}
use ape_server.Commands.{Func, need_sessid, return_continue, register_hook_cmd, call_cmd_hook}
use ape_server.Commands.Call.{Call, connect_keepalive}
use ape_server.Commands.Process.{check_loop}
use ape_server.Commands.Registered.{register_cmd-callback, register_hook_cmd-call, then_hook}
use ape_server.Commands.Refusing.{check_loop-queue}
use ape_server.Tests.Server.{
  check, check_found, commands, empty, no_restor, nothing_done, request, server, waiting,
}

abbrev passes_on : Func Call
passes_on c = some (return_continue, c)

register_cmd-callback_example :
    (hashtbl_seek commands.callbacks (some (codes "check")) ≡ (
      if casecmp (codes "CHECK") (codes "check")
      then some (record { func = nothing_done; need = need_sessid })
      else hashtbl_seek empty.callbacks (some (codes "check"))))
    × IsValid commands.callbacks
register_cmd-callback_example =
    register_cmd-callback (codes "CHECK") (codes "check") nothing_done need_sessid empty
      hashtbl_init-IsValid

abbrev started : Call
started = record {
  server = server;
  cp = record {
    client = 8;
    param = end;
    call_user = some 1;
    ip = codes "127.0.0.1";
    host = codes "2";
    cmd = codes "CHECK";
    call_subuser = none;
    transport = longpolling;
    chl = pos 0;
  };
}

register_hook_cmd-call_example :
    ((register_hook_cmd (codes "check") passes_on commands).1 ≡ true)
    × (call_cmd_hook
          (codes "CHECK")
          (register_hook_cmd (codes "check") passes_on commands).0
          started
        ≡ (call_cmd_hook (codes "CHECK") commands started
            >>= then_hook (casecmp (codes "check") (codes "CHECK")) passes_on))
register_hook_cmd-call_example =
    register_hook_cmd-call (codes "check") (codes "CHECK") passes_on
      (record { func = nothing_done; need = need_sessid }) commands started check_found

check_loop-queue_example :
    (left : Items) × (check_loop no_restor commands check
        (record request { guser = some 2 })
        none
        server
      ≡ some (record {
        answer = connect_keepalive;
        guser = some 2;
        iuser = none;
        server = record server {
          users = update server.users 2 (some (record waiting { cmdqueue = left }));
        };
      }))
    × (each_text left ≡ each_text check)
unfolding children
check_loop-queue_example =
    check_loop-queue no_restor commands _ _ _ (record request { guser = some 2 }) none server 2
      waiting refl refl refl
