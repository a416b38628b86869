-- ===== src/Commands/Attach.antt =====
-- process_cmd of src/cmd.c: the user of a command, and the connection that the command comes by.
use ape_server.Prelude.{
  ℕ, ◌&&◌, not, Bool, true, false, Option, none, some, ◌∷◌, ◌==◌, if◌then◌else◌, update,
}
use ape_server.Prelude.Text.{codes}
use ape_server.Raw.Send.{◌>>=◌}
use ape_server.Transports.{transport_open_same_host, SubState, alive, adied}
use ape_server.Pipes.{seek_user_id}
use ape_server.Json.{Items, json_lookup, json_new_object, json_set_property_str_n}
use ape_server.Users.Connections.{Connection}
use ape_server.Commands.Server.{
  Server, Sub, change_user, change_sub, the_sub, getsubuser, addsubuser, forge, send_inline,
}
use ape_server.Commands.Call.{CmdProcess, json_str}

-- the user that the session of the command names, unless the request has one already
unfoldable pub find_user : Items → CmdProcess → Server → Option ℕ
find_user ijson pc s = elim pc.guser [
  | some u ↦ some u
  | none ↦ elim (json_str (json_lookup ijson (codes "sessid"))) [
    | none ↦ none
    | some sessid ↦ seek_user_id sessid s.pipes
  ]
]

-- the connection, cp.client, `attach`, and the state
pub record Attached : Type 0 where
  pub sub : Option Sub
  pub client : ℕ
  pub attach : Bool
  pub server : Server

-- "CLOSE", unless the connection has had an answer
unfoldable pub tell_close : Connection → ℕ → CmdProcess → Server → Option Server
tell_close c close pc s = elim c.headers_sent [
  | true ↦ some s
  | false ↦ do
    jlist ← json_set_property_str_n json_new_object (some (codes "value")) (codes "null")
    raw ← forge (codes "CLOSE") jlist s
    some (send_inline (if close == pc.client then pc.client else c.client) pc.transport raw s)
]

abbrev pub is_alive : SubState → Bool
is_alive alive = true
is_alive adied = false

-- the user opens a connection while there is one of the same host
unfoldable pub open_same_host : Connection → Sub → CmdProcess → Server → Option Attached
unfolding tell_close
open_same_host c sub pc s = do
  user ← s.users sub.user
  let retval = transport_open_same_host c.client pc.client user.transport
  s₁ ← tell_close c retval.client_close pc s
  s₂ ←
      change_sub
        (λ c. record c {
          headers_sent = false;
          headers = false;
          burn_after_writing = false;
          client = retval.client_listener;
          alive = is_alive retval.substate;
        })
        sub s₁
  some (record {
    sub = some sub;
    client = retval.client_listener;
    attach = retval.attach;
    server = record s₂ {
      attach = update s₂.attach retval.client_close none;
      shut = retval.client_close ∷ s₂.shut;
    };
  })

abbrev pub as_is : CmdProcess → Server → Attached
as_is pc s = record { sub = pc.sub; client = pc.client; attach = true; server = s }

module _ (subuser_restor : Sub → Server → Option Server) where
  unfoldable pub attach_found : Connection → Sub → CmdProcess → Server → Option Attached
  unfolding open_same_host
  attach_found c sub pc s =
      if not (c.client == pc.client) && c.alive then open_same_host c sub pc s else (do
        s' ← change_sub (λ c. record c { client = pc.client }) sub s
        some (record { sub = some sub; client = pc.client; attach = true; server = s' }))

  unfoldable pub attach_new : ℕ → CmdProcess → Server → Option Attached
  attach_new u pc s = do
    (sub, s') ← addsubuser pc.client pc.host u s
    s'' ← elim sub [ none ↦ some s' | some b ↦ subuser_restor b s' ]
    some (record { sub = sub; client = pc.client; attach = true; server = s'' })

  -- The connection of the host, or a new one.
  unfoldable pub attach_sub : ℕ → CmdProcess → Server → Option Attached
  unfolding attach_found attach_new
  attach_sub u pc s = getsubuser u pc.host s >>= λ found. elim found [
    | none ↦ attach_new u pc s
    | some sub ↦ the_sub sub s >>= λ c. attach_found c sub pc s
  ]

  -- The user is not idle; nor is the connection, which must not be NULL.
  unfoldable pub touch : ℕ → Attached → Option Attached
  touch u a = do
    s ← change_user (λ user. record user { idle = a.server.time }) u a.server
    sub ← a.sub
    s' ← change_sub (λ c. record c { idle = s.time }) sub s
    some (record a { server = s' })

  -- the connection of the user, unless the request has one
  unfoldable pub enter : ℕ → CmdProcess → Server → Option Attached
  unfolding attach_sub touch
  enter u pc s = elim pc.sub [ some _ ↦ some (as_is pc s) | none ↦ attach_sub u pc s >>= touch u ]
