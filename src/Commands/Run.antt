-- ===== src/Commands/Run.antt =====
-- process_cmd of src/cmd.c: what is made ready for the functions of a command, their call, and what
-- follows from the flags that they answer.
use ape_server.Prelude.{
  ℕ, ◌||◌, Bool, true, false, Option, none, some, List, [], ◌∷◌, if◌then◌else◌,
}
use ape_server.Prelude.Text.{CString, codes, casecmp}
use ape_server.Strings.Numbers.{ℤ, pos}
use ape_server.Raw.Send.{◌>>=◌}
use ape_server.Json.{Items, item, json_lookup}
use ape_server.Users.Connections.{Connection}
use ape_server.Commands.{
  Callback, Registry, call, return_null, return_bad_params, return_bad_cmd, return_hang,
}
use ape_server.Commands.Server.{Server, Sub, change_user, change_sub, the_sub, allocate_user}
use ape_server.Commands.Call.{
  Call, CmdProcess, go_on, connect_keepalive, connect_shutdown, Outcome, flagged, error_inline,
  sub_or_host, error_sub,
}
use ape_server.Commands.Attach.{Attached}

-- sub->current_chl, for a user with a connection and a command with a challenge
unfoldable pub set_challenge : Items → Option ℕ → Option Sub → Server → Option Server
set_challenge (item i child next) (some u) (some sub) s =
    change_sub (λ c. record c { current_chl = i.integer_value }) sub s
set_challenge _ guser sub s = some s

unfoldable pub challenge_of : Option Sub → Server → Option ℤ
challenge_of none s = some (pos 0)
challenge_of (some sub) s = the_sub sub s >>= λ c. some c.current_chl

-- before the functions: pc->guser, sub, and what they are called with
pub record Ready : Type 0 where
  pub guser : Option ℕ
  pub sub : Option Sub
  pub start : Call

unfoldable pub prepare : Items → CString → Option ℕ → CmdProcess → Attached → Option Ready
unfolding set_challenge challenge_of
prepare ijson cmd guser pc a = do
  s ← set_challenge (json_lookup ijson (codes "chl")) guser a.sub a.server
  chl ← challenge_of a.sub s
  some (record {
    guser = guser;
    sub = a.sub;
    start = record {
      server = s;
      cp = record {
        client = a.client;
        param = json_lookup ijson (codes "params");
        call_user = guser;
        ip = pc.ip;
        host = pc.host;
        cmd = cmd;
        call_subuser = a.sub;
        transport = pc.transport;
        chl = chl;
      };
    };
  })

abbrev first_sub : ℕ → List Connection → Option Sub
first_sub u [] = none
first_sub u (c ∷ cs) = some (record { user = u; address = c.address })

-- a user is there before the functions of CONNECT are called
unfoldable pub preallocate : CString → CmdProcess → Ready → Option Ready
preallocate cmd pc r = elim (casecmp cmd (codes "CONNECT")) [
  | false ↦ some r
  | true ↦ do
    (u, s) ← allocate_user r.start.cp.client r.start.cp.host r.start.cp.ip r.start.server
    s' ← change_user (λ user. record user { transport = pc.transport }) u s
    user ← s'.users u
    let sub = first_sub u user.subuser
    some (record {
      guser = some u;
      sub = sub;
      start = record {
        server = s';
        cp = record r.start.cp { call_user = some u; call_subuser = sub };
      };
    })
]

-- the answer to flags of a bad command or bad parameters
unfoldable pub report :
    CmdProcess → Option Sub → CString → CString → Call → Option (Option Sub × Server)
unfolding error_sub error_inline
report pc sub code value after = elim after.cp.call_user [
  | some _ ↦ error_sub pc sub after.cp.chl code value after.server
  | none ↦ error_inline pc after.cp.chl code value after.server >>= λ s. some (sub, s)
]

unfoldable pub handle_flag : ℕ → CmdProcess → Option Sub → Call → Option (Option Sub × Server)
unfolding report
handle_flag flag pc sub after =
    if flagged flag return_null
    then some (sub, after.server)
    else if flagged flag return_bad_params
    then report pc sub (codes "001") (codes "BAD_PARAMS") after
    else if flagged flag return_bad_cmd
    then report pc sub (codes "003") (codes "BAD_CMD") after
    else some (sub, after.server)

-- the connection is alive again, and *iuser is set
unfoldable pub conclude :
    ℕ → Bool → Option ℕ → Option Sub → Option Sub → CString → Server → Option Outcome
unfolding sub_or_host
conclude flag attach none sub iuser host s = some (record {
  answer = if flagged flag return_hang then connect_keepalive else connect_shutdown;
  guser = none;
  iuser = iuser;
  server = s;
})
conclude flag attach (some u) sub iuser host s = do
  here ← sub_or_host (some u) sub host s
  b ← here
  s' ← change_sub (λ c. record c { alive = true }) b s
  some (record {
    answer =
        if flagged flag return_hang || flagged flag return_bad_params
        then connect_keepalive
        else go_on;
    guser = some u;
    iuser = if attach then some b else none;
    server = s';
  })

-- from the call of the hooks on
unfoldable pub run :
    Callback Call → Registry Call → CmdProcess → Bool → Option Sub → Ready → Option Outcome
unfolding handle_flag conclude
run c reg pc attach iuser r = do
  (flag, after) ← call r.start.cp.cmd c reg r.start
  let guser = if flagged flag return_null then none else r.guser
  (sub, s) ← handle_flag flag (record pc { guser = r.guser }) r.sub after
  conclude flag attach guser sub iuser pc.host s
