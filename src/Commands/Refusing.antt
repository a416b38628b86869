-- ===== src/Commands/Refusing.antt =====
-- Commands that are refused, and what is left of a request whose user is not let in yet.
use ape_server.Prelude.{ℕ, ◌≡◌, ◌≢◌, refl, ap, ◌∙◌, true, false, Option, none, some, ◌∷◌, update}
use ape_server.Prelude.Text.{CString, codes}
use ape_server.Strings.Numbers.{pos}
use ape_server.Raw.Heap.{lo}
use ape_server.Raw.Forge.{message, forge_raw-text}
use ape_server.Json.{Item, Items, item, json_lookup, json_item_copy, json_set_property_str_n}
use ape_server.Json.Copies.{each_text, each_text-copy}
use ape_server.Json.Escapes.{decimal-IsText}
use ape_server.Json.Values.{
  Value, v_str, v_obj, member, no_members, text, decimal, node, children, IsPlainValue, IsText,
  is_text_byte, IsKey, is_key_byte,
}
use ape_server.Commands.{
  Need, need_nick, need_sessid, need_nothing, Callback, Registry, callback_of,
}
use ape_server.Commands.Server.{Server, User, Sub, forge, send_inline, change_user}
use ape_server.Commands.Call.{
  Call, CmdProcess, connect_shutdown, connect_keepalive, json_str, error_object, error_inline,
  refuse,
}
use ape_server.Commands.Attach.{find_user}
use ape_server.Commands.Process.{process_for, process_cmd, check_loop, delayed, queue}

-- {"time": ..., "raw": "ERR", "data": {"code": ..., "value": ...}}
abbrev pub error_text : ℕ → CString → CString → CString
error_text time code value = text (
    message (decimal (pos time)) (codes "ERR") (
      v_obj (member (codes "code") (v_str code) (member (codes "value") (v_str value) no_members))))

abbrev pub told : CmdProcess → CString → Server → Server
told pc content s = record s {
  inline = record { client = pc.client; transport = pc.transport; content = content } ∷ s.inline;
}

abbrev error_value : CString → CString → Value
error_value code value =
    v_obj (member (codes "code") (v_str code) (member (codes "value") (v_str value) no_members))

forge-error :
    (code value : CString) (s : Server)
    → IsText code
    → IsText value
    → forge (codes "ERR") (node false (error_value code value)) s
      ≡ some (record { content = error_text s.time code value; priority = lo; refcount = 0 })
unfolding forge IsPlainValue IsText is_text_byte IsKey is_key_byte
forge-error code value s c v =
    forge_raw-text (decimal (pos s.time)) (codes "ERR") (error_value code value)
      (decimal-IsText s.time) (refl, (refl, (refl, tt)))
      (((refl, (refl, (refl, (refl, tt)))), c, ((refl, (refl, (refl, (refl, (refl, tt))))), v, tt)))

refuse-told :
    (code value : CString) (pc : CmdProcess) (iuser : Option Sub) (s : Server)
    → IsText code
    → IsText value
    → refuse code value pc iuser s
      ≡ some (record {
        answer = connect_shutdown;
        guser = pc.guser;
        iuser = iuser;
        server = told pc (error_text s.time code value) s;
      })
unfolding refuse error_inline error_object json_set_property_str_n children send_inline
refuse-told code value pc iuser s c v = rw (forge-error code value s c v) refl

module _ (restor : Sub → Server → Option Server) (reg : Registry Call) where
  refuse-need :
      (c : Callback Call) (need : Need) (ijson : Items) (cmd : CString) (pc : CmdProcess)
      (iuser : Option Sub) (s : Server)
      → c.need ≡ need
      → need ≢ need_nothing
      → process_for restor reg ijson cmd c none pc iuser s
        ≡ refuse (codes "004") (codes "BAD_SESSID") (record pc { guser = none }) iuser s
  unfolding process_for
  refuse-need c need_nick ijson cmd pc iuser s e other = rw (process_for, e) refl
  refuse-need c need_sessid ijson cmd pc iuser s e other = rw (process_for, e) refl
  refuse-need c need_nothing ijson cmd pc iuser s e other = absurd (other refl)

  -- For a command that is registered with the need of a session, when neither the request has a
  -- user nor the command names the session of one: whatever functions and hooks are registered, the
  -- request ends with CONNECT_SHUTDOWN, its client is told BAD_SESSID, and nothing else of the server
  -- changes.
  pub process_cmd-no_session :
      (ijson : Items) (cmd : CString) (pc : CmdProcess) (iuser : Option Sub) (s : Server)
      → json_str (json_lookup ijson (codes "cmd")) ≡ some cmd
      → (callback_of cmd reg).need ≢ need_nothing
      → find_user ijson pc s ≡ none
      → process_cmd restor reg ijson pc iuser s
        ≡ some (record {
          answer = connect_shutdown;
          guser = none;
          iuser = iuser;
          server = told pc (error_text s.time (codes "004") (codes "BAD_SESSID")) s;
        })
  unfolding process_cmd IsText is_text_byte
  process_cmd-no_session ijson cmd pc iuser s named need unknown =
      rw (process_cmd, named, unknown)
        (refuse-need (callback_of cmd reg) (callback_of cmd reg).need ijson cmd pc iuser s refl need
          ∙ refuse-told (codes "004") (codes "BAD_SESSID") (record pc { guser = none }) iuser s
              (refl, (refl, (refl, tt)))
              (refl, (refl, (refl, (refl, (refl, (refl, (refl, (refl, (refl, (refl, tt)))))))))))

  delayed-istmp :
      (guser : Option ℕ) (s : Server) (u : ℕ) (user : User)
      → guser ≡ some u
      → s.users u ≡ some user
      → user.istmp ≡ true
      → delayed restor reg guser s ≡ some true
  unfolding delayed
  delayed-istmp guser s u user g there tmp = rw (g, there) (ap some tmp)

  -- For a request whose user is not let in yet: none of the commands left is run, the request goes
  -- on to be kept alive, and the queue of the user has as many commands as are left, in their order,
  -- each of which prints by itself as the one in the request does.
  pub check_loop-queue :
      (i : Item) (child next : Items) (pc : CmdProcess) (iuser : Option Sub) (s : Server) (u : ℕ)
      (user : User)
      → pc.guser ≡ some u
      → s.users u ≡ some user
      → user.istmp ≡ true
      → (commands : Items) × (check_loop restor reg (item i child next) pc iuser s
          ≡ some (record {
            answer = connect_keepalive;
            guser = some u;
            iuser = iuser;
            server = record s {
              users = update s.users u (some (record user { cmdqueue = commands }));
            };
          }))
        × (each_text commands ≡ each_text (item i child next))
  unfolding check_loop queue delayed change_user
  check_loop-queue i child next pc iuser s u user g there tmp = (
    json_item_copy (item i child next),
    rw (check_loop, delayed-istmp pc.guser s u user g there tmp, queue, g, there) refl,
    each_text-copy (item i child next),
  )
