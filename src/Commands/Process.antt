-- ===== src/Commands/Process.antt =====
-- process_cmd and checkcmd of src/cmd.c: what becomes of the commands of a request.
use ape_server.Prelude.{ℕ, Bool, true, false, Option, none, some}
use ape_server.Prelude.Text.{CString, codes}
use ape_server.Raw.Send.{◌>>=◌}
use ape_server.Json.{Items, end, item, json_lookup, json_item_copy}
use ape_server.Commands.{need_nothing, Callback, Registry, callback_of}
use ape_server.Commands.Server.{Server, Sub, change_user}
use ape_server.Commands.Call.{Call, CmdProcess, go_on, connect_keepalive, Outcome, json_str, refuse}
use ape_server.Commands.Attach.{find_user, as_is, enter}
use ape_server.Commands.Run.{prepare, preallocate, run}

module _ (subuser_restor : Sub → Server → Option Server) (reg : Registry Call) where
  -- once the user is looked for
  unfoldable pub process_for :
      Items → CString → Callback Call → Option ℕ → CmdProcess → Option Sub → Server → Option Outcome
  unfolding refuse run enter preallocate prepare
  process_for ijson cmd c none pc iuser s = elim c.need [
    | need_nothing ↦ do
      r ← prepare ijson cmd none pc (as_is pc s)
      r' ← preallocate cmd pc r
      run c reg pc true iuser r'
    | _ ↦ refuse (codes "004") (codes "BAD_SESSID") (record pc { guser = none }) iuser s
  ]
  process_for ijson cmd c (some u) pc iuser s = do
    a ← enter subuser_restor u pc s
    r ← prepare ijson cmd (some u) pc a
    r' ← preallocate cmd pc r
    run c reg pc a.attach iuser r'

  unfoldable pub process_cmd : Items → CmdProcess → Option Sub → Server → Option Outcome
  unfolding process_for refuse
  process_cmd ijson pc iuser s = elim (json_str (json_lookup ijson (codes "cmd"))) [
    | none ↦ refuse (codes "003") (codes "NO_CMD") pc iuser s
    | some cmd ↦ process_for ijson cmd (callback_of cmd reg) (find_user ijson pc s) pc iuser s
  ]

  -- whether a user is not let in yet
  unfoldable pub delayed : Option ℕ → Server → Option Bool
  delayed none s = some false
  delayed (some u) s = s.users u >>= λ user. some user.istmp

  abbrev or_last : Option Sub → Option Sub → Option Sub
  or_last none last = last
  or_last (some b) last = some b

  unfoldable pub queue : Option ℕ → Items → Server → Option Server
  queue none ijson s = some s
  queue (some u) ijson s = change_user (λ user. record user { cmdqueue = json_item_copy ijson }) u s

  -- The loop of checkcmd. The commands behind a user who is not let in are copied to his queue.
  unfoldable pub check_loop : Items → CmdProcess → Option Sub → Server → Option Outcome
  unfolding process_cmd queue delayed
  check_loop end pc iuser s =
      some (record { answer = connect_keepalive; guser = pc.guser; iuser = iuser; server = s })
  check_loop (item i child next) pc iuser s = delayed pc.guser s >>= λ wait. elim wait [
    | true ↦ do
      s' ← queue pc.guser (item i child next) s
      some (record { answer = connect_keepalive; guser = pc.guser; iuser = iuser; server = s' })
    | false ↦ do
      o ← process_cmd child pc iuser s
      let more =
          check_loop next (record pc { guser = o.guser; sub = or_last o.iuser pc.sub }) o.iuser
            o.server
      elim o.answer [ go_on ↦ more | _ ↦ some o ]
  ]

  -- what the parser left of the request: its first item, if it could read it
  unfoldable pub checkcmd : Option Items → CmdProcess → Option Sub → Server → Option Outcome
  unfolding check_loop refuse
  checkcmd (some (item i (item j below behind) next)) pc iuser s =
      check_loop (item j below behind) pc iuser s
  checkcmd _ pc iuser s = refuse (codes "005") (codes "BAD_JSON") pc iuser s
