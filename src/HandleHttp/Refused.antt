-- ===== src/HandleHttp/Refused.antt =====
-- A request without a session, from its text to the answer.
use ape_server.Prelude.{
  ℕ, ◌≡◌, ◌≢◌, refl, ◌∙◌, count, true, false, Option, none, some, List, [], ◌∷◌,
}
use ape_server.Prelude.Text.{CString, codes}
use ape_server.Sock.Say.{Out}
use ape_server.Transports.{Transport}
use ape_server.Http.Request.{Ready}
use ape_server.Json.{Items, Item, item}
use ape_server.Json.Values.{
  Members, Elements, v_obj, v_arr, element, member_items, element_items, children, self_of,
}
use ape_server.Json.Reader.{Event}
use ape_server.Json.Reading.{events, IsCompound, init_json_parser-node}
use ape_server.Commands.{Registry, need_nothing, callback_of}
use ape_server.Commands.Server.{Server, Sub}
use ape_server.Commands.Call.{Call, CmdProcess, Outcome, connect_shutdown}
use ape_server.Commands.Attach.{find_user}
use ape_server.Commands.Process.{check_loop, delayed, checkcmd}
use ape_server.Commands.Named.{named, json_lookup-named}
use ape_server.Commands.Refusing.{error_text, told, process_cmd-no_session}
use ape_server.HandleHttp.{
  Digests, is_websocket, gettransport, process_of, check_text, commanded, by_transport, checkrecv,
}

module _ (restor : Sub → Server → Option Server) (reg : Registry Call) (d : Digests)
    (parse : CString → Option (List Event)) (header_default notfound : CString) where
  abbrev refusal : CmdProcess → Option Sub → Server → Outcome
  refusal pc iuser s = record {
    answer = connect_shutdown;
    guser = none;
    iuser = iuser;
    server = told pc (error_text s.time (codes "004") (codes "BAD_SESSID")) s;
  }

  find_user-unnamed :
      (ms : Members) (pc : CmdProcess) (s : Server)
      → pc.guser ≡ none
      → named (codes "sessid") ms ≡ none
      → find_user (member_items true ms) pc s ≡ none
  unfolding find_user count
  find_user-unnamed ms pc s g unnamed =
      rw (find_user, g, json_lookup-named true (codes "sessid") ms refl, unnamed) refl

  check_loop-refusal :
      (i : Item) (ms : Members) (next : Items) (cmd : CString) (pc : CmdProcess) (s : Server)
      → pc.guser ≡ none
      → named (codes "cmd") ms ≡ some cmd
      → named (codes "sessid") ms ≡ none
      → (callback_of cmd reg).need ≢ need_nothing
      → check_loop restor reg (item i (member_items true ms) next) pc none s
        ≡ some (refusal pc none s)
  unfolding check_loop delayed count
  check_loop-refusal i ms next cmd pc s g is_named unnamed need =
      rw
        (
          check_loop,
          g,
          delayed,
          process_cmd-no_session restor reg (member_items true ms) cmd pc none s
              (json_lookup-named true (codes "cmd") ms refl ∙ is_named) need
              (find_user-unnamed ms pc s g unnamed),
        )
        refl

  check_text-refusal :
      (text : CString) (ms : Members) (es : Elements) (cmd : CString) (pc : CmdProcess) (s : Server)
      → pc.guser ≡ none
      → parse text ≡ some (events (v_arr (element (v_obj ms) es)) [])
      → named (codes "cmd") ms ≡ some cmd
      → named (codes "sessid") ms ≡ none
      → (callback_of cmd reg).need ≢ need_nothing
      → check_text restor reg d parse header_default notfound text pc s ≡ some (refusal pc none s)
  unfolding check_text IsCompound children checkcmd
  check_text-refusal text ms es cmd pc s g parsed is_named unnamed need =
      rw (check_text, parsed, init_json_parser-node (v_arr (element (v_obj ms) es)) tt)
        (check_loop-refusal (record (self_of true (v_obj ms) (member_items true ms)) { key = none })
          ms (element_items true es) cmd pc s g is_named unnamed need)

  by_transport-refusal :
      (client : ℕ) (ip : CString) (http : Ready) (eight : CString) (s : Server) (o : Out)
      (host uri text : CString) (t : Transport) (ms : Members) (es : Elements) (cmd : CString)
      → is_websocket t ≡ false
      → http.query ≡ some text
      → parse text ≡ some (events (v_arr (element (v_obj ms) es)) [])
      → named (codes "cmd") ms ≡ some cmd
      → named (codes "sessid") ms ≡ none
      → (callback_of cmd reg).need ≢ need_nothing
      → by_transport restor reg d parse header_default notfound client ip http eight host uri t s o
        ≡ some (record {
          server = record s {
            inline =
                record {
                  client = client;
                  transport = t;
                  content = error_text s.time (codes "004") (codes "BAD_SESSID");
                }
                ∷ s.inline;
            shut = client ∷ s.shut;
          };
          out = o;
          closed = false;
          upgraded = none;
          user = none;
        })
  unfolding by_transport commanded
  by_transport-refusal client ip http eight s o host uri text t ms es cmd plain q parsed is_named
        unnamed need =
      rw (by_transport, plain, q, commanded)
        (rw
          (check_text-refusal text ms es cmd
            (process_of restor reg d parse header_default notfound client ip host t) s refl parsed
            is_named unnamed need)
          refl)

  -- For a request with a host, an address that is none of a WebSocket, and a text that the parser
  -- reads as an array whose first element is an object: if the object names a command that needs a
  -- session, and no session, then its client is told BAD_SESSID and its socket is shut down; no
  -- command of the request is run, and nothing else of the server changes.
  pub checkrecv-no_session :
      (client : ℕ) (ip : CString) (http : Ready) (eight : CString) (s : Server) (o : Out)
      (host uri text : CString) (ms : Members) (es : Elements) (cmd : CString)
      → http.host ≡ some host
      → http.uri ≡ some uri
      → is_websocket (gettransport uri) ≡ false
      → http.query ≡ some text
      → parse text ≡ some (events (v_arr (element (v_obj ms) es)) [])
      → named (codes "cmd") ms ≡ some cmd
      → named (codes "sessid") ms ≡ none
      → (callback_of cmd reg).need ≢ need_nothing
      → checkrecv restor reg d parse header_default notfound client ip http eight s o
        ≡ some (record {
          server = record s {
            inline =
                record {
                  client = client;
                  transport = gettransport uri;
                  content = error_text s.time (codes "004") (codes "BAD_SESSID");
                }
                ∷ s.inline;
            shut = client ∷ s.shut;
          };
          out = o;
          closed = false;
          upgraded = none;
          user = none;
        })
  unfolding checkrecv
  checkrecv-no_session client ip http eight s o host uri text ms es cmd h u plain q parsed is_named
        unnamed need =
      rw (checkrecv, h, u)
        (by_transport-refusal client ip http eight s o host uri text (gettransport uri) ms es cmd
          plain q parsed is_named unnamed need)
