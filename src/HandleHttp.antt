-- ===== src/HandleHttp.antt =====
-- src/handle_http.c: what becomes of a request once it is read: a WebSocket handshake, or the
-- commands in it. MD5, SHA-1 and base64, which are copies of other projects' code, are given, and so
-- is the JSON parser, as the events of a text that it accepts.
pub mod Refused
pub mod Keys
pub mod Upgrade
use ape_server.Prelude.{
  ℕ, suc, ◌+◌, ◌-◌, ◌*◌, ◌/◌, ◌%◌, ◌^◌, ◌&&◌, Bool, true, false, Option, none, some, List, [], ◌∷◌,
  ◌++◌, ◌==◌, leb, ltb, if◌then◌else◌, length, take,
}
use ape_server.Prelude.Text.{CString, codes}
use ape_server.Raw.Send.{◌>>=◌, WsVersion, ws_old, ws_76, ws_ietf_06, ws_ietf_07}
use ape_server.Sock.Say.{Out, say}
use ape_server.Transports.{
  Transport, longpolling, xhrstreaming, jsonp, persistant, sse_longpolling, sse_jsonp, websocket,
  websocket_ietf,
}
use ape_server.Http.Header.{HeaderLine, get_header_line, atoi}
use ape_server.Http.Request.{Ready}
use ape_server.Websocket.{Step, ws_step_key, ws_step_start}
use ape_server.Json.Reader.{Event, init_json_parser}
use ape_server.Commands.{Registry}
use ape_server.Commands.Server.{Server, Sub}
use ape_server.Commands.Call.{
  Call, CmdProcess, Answer, go_on, connect_keepalive, connect_shutdown, Outcome,
}
use ape_server.Commands.Process.{checkcmd}

abbrev transport_number : ℕ → Transport
transport_number n =
    if n == 49
    then xhrstreaming
    else if n == 50
    then jsonp
    else if n == 51
    then persistant
    else if n == 52
    then sse_longpolling
    else if n == 53
    then sse_jsonp
    else if n == 54
    then websocket
    else longpolling

-- start[1], with start[2], behind the first '/'
abbrev at_slash : CString → Transport
at_slash [] = longpolling
at_slash (n ∷ []) = longpolling
at_slash (n ∷ c ∷ _) = if c == b'/' then transport_number n else longpolling

unfoldable pub gettransport : CString → Transport
gettransport [] = longpolling
gettransport (c ∷ input) =
    let rest = gettransport input in if c == b'/' then at_slash input else rest

-- the digits of a key as a number, and its blanks; `unsigned long` has 64 bits
unfoldable pub key_loop : ℕ → ℕ → CString → ℕ × ℕ
key_loop val spaces [] = (val, spaces)
key_loop val spaces (c ∷ value) =
    let digit = leb 48 c && leb c 57 in
    key_loop (if digit then (val * 10 + (c - 48)) % 2 ^ 64 else val)
      (if digit then spaces else if c == 32 then suc spaces else spaces) value

unfoldable pub ws_compute_key_r76 : CString → ℕ
unfolding key_loop
ws_compute_key_r76 value =
    let (val, spaces) = key_loop 0 0 value in if spaces == 0 then 0 else val / spaces

-- the four bytes at the address of htonl(n)
abbrev pub network_order : ℕ → CString
network_order n = n / 16777216 % 256 ∷ n / 65536 % 256 ∷ n / 256 % 256 ∷ n % 256 ∷ []

abbrev pub ws_ietf_guid : CString
ws_ietf_guid = codes "258EAFA5-E914-47DA-95CA-C5AB0DC85B11"

abbrev crlf : CString
crlf = 13 ∷ 10 ∷ []

abbrev hardcoded : CString → CString
hardcoded first =
    first ++ crlf ++ codes "Upgrade: WebSocket" ++ crlf ++ codes "Connection: Upgrade" ++ crlf

-- md5 of some bytes, the digest of sha1_csum, and base64_encode
pub record Digests : Type 0 where
  pub md5 : CString → CString
  pub sha1_csum : CString → CString
  pub base64_encode : CString → CString

unfoldable pub ws_compute_key : Digests → CString → Option CString
ws_compute_key d key =
    if ltb 32 (length key) then none else some (d.base64_encode (d.sha1_csum (key ++ ws_ietf_guid)))

-- what the headers of a handshake ask for: the version, and what proves that they were read
pub data Handshake : Type 0 where
  old : Handshake
  rev_76 : CString → Handshake
  ietf : WsVersion → CString → Handshake

abbrev version_of : Option CString → WsVersion
version_of none = ws_old
version_of (some s) = if (atoi s).0 && (atoi s).1 == 6 then ws_ietf_06 else ws_ietf_07

-- The eight bytes are those at http->data. Without a Sec-WebSocket-Version the version stays
-- WS_OLD, and the accepted key is not sent.
unfoldable pub ietf_handshake : Option CString → CString → Handshake
ietf_handshake none accept = old
ietf_handshake (some s) accept = ietf (version_of (some s)) accept

unfoldable pub handshake_of : Digests → List HeaderLine → CString → Option Handshake
unfolding ws_compute_key_r76 ws_compute_key ietf_handshake
handshake_of d hlines eight =
    let key1 = get_header_line hlines (codes "Sec-WebSocket-Key1") in
    let key2 = get_header_line hlines (codes "Sec-WebSocket-Key2") in
    let keybase = get_header_line hlines (codes "Sec-WebSocket-Key") in
    let version = get_header_line hlines (codes "Sec-WebSocket-Version") in
    with_keys key1 key2 keybase version
  where
    with_base : Option CString → Option CString → Option Handshake
    with_base none version = some old
    with_base (some key) version =
        ws_compute_key d key >>= λ accept. some (ietf_handshake version accept)

    with_keys : Option CString → Option CString → Option CString → Option CString → Option Handshake
    with_keys (some k1) (some k2) keybase version = some (
        rev_76 (
          d.md5 (
            network_order (ws_compute_key_r76 k1)
            ++ network_order (ws_compute_key_r76 k2)
            ++ take 8 eight)))
    with_keys _ _ keybase version = with_base keybase version

-- the version that is kept with the connection
abbrev pub version : Handshake → WsVersion
version old = ws_old
version (rev_76 _) = ws_76
version (ietf v _) = v

-- websocket->step, where it is set
abbrev pub first_step : WsVersion → Option Step
first_step ws_ietf_06 = some ws_step_key
first_step ws_ietf_07 = some ws_step_start
first_step _ = none

abbrev say_protocol : Option CString → Out → Out
say_protocol none o = o
say_protocol (some p) o = say p (say (crlf ++ codes "Sec-WebSocket-Protocol: ") o)

unfoldable pub say_handshake : Handshake → CString → CString → CString → Option CString → Out → Out
say_handshake old origin host uri protocol o =
    let o₁ = say (hardcoded (codes "HTTP/1.1 101 Web Socket Protocol Handshake")) o in
    let o₂ = say origin (say (codes "WebSocket-Origin: ") o₁) in
    let o₃ = say host (say (crlf ++ codes "WebSocket-Location: ws://") o₂) in
    say (crlf ++ crlf) (say uri o₃)
say_handshake (rev_76 sum) origin host uri protocol o =
    let o₁ = say (hardcoded (codes "HTTP/1.1 101 WebSocket Protocol Handshake")) o in
    let o₂ = say origin (say (codes "Sec-WebSocket-Origin: ") o₁) in
    let o₃ = say host (say (crlf ++ codes "Sec-WebSocket-Location: ws://") o₂) in
    say sum (say (crlf ++ crlf) (say uri o₃))
say_handshake (ietf v accept) origin host uri protocol o =
    let o₁ = say (hardcoded (codes "HTTP/1.1 101 Switching Protocols")) o in
    let o₂ = say accept (say (codes "Sec-WebSocket-Accept: ") o₁) in
    say (crlf ++ crlf) (say_protocol protocol o₂)

-- What checkrecv leaves: the server, what is sent on the socket, whether it was shut down by
-- shutdown(), the WebSocket that it became, and the connection that it returns.
pub record Received : Type 0 where
  pub server : Server
  pub out : Out
  pub closed : Bool
  pub upgraded : Option WsVersion
  pub user : Option Sub

abbrev refused : Server → Out → Received
refused s o = record { server = s; out = o; closed = true; upgraded = none; user = none }

abbrev pub or_else : Option CString → Option CString → Option CString
or_else none b = b
or_else (some a) b = some a

abbrev pub shaken :
    CString → CString → CString → List HeaderLine → Server → Out → Option Handshake → Received
shaken origin host uri hlines s o none = refused s o
shaken origin host uri hlines s o (some h) = record {
  server = s;
  out = say_handshake h origin host uri (get_header_line hlines (codes "Sec-WebSocket-Protocol")) o;
  closed = false;
  upgraded = some (version h);
  user = none;
}

abbrev pub with_origin :
    Digests
    → CString
    → CString
    → List HeaderLine
    → CString
    → Server
    → Out
    → Option CString
    → Received
with_origin d host uri hlines eight s o none = refused s o
with_origin d host uri hlines eight s o (some origin) =
    shaken origin host uri hlines s o (handshake_of d hlines eight)

unfoldable pub upgrade :
    Digests → CString → CString → List HeaderLine → CString → Server → Out → Received
upgrade d host uri hlines eight s o = with_origin d host uri hlines eight s o (
    or_else (get_header_line hlines (codes "Origin"))
      (get_header_line hlines (codes "Sec-WebSocket-Origin")))

abbrev pub is_websocket : Transport → Bool
is_websocket websocket = true
is_websocket _ = false

-- safe_shutdown(co->fd)
abbrev pub shut_for : Answer → ℕ → Server → Server
shut_for connect_shutdown client s = record s { shut = client ∷ s.shut }
shut_for _ client s = s

module _ (restor : Sub → Server → Option Server) (reg : Registry Call) (d : Digests)
    (parse : CString → Option (List Event)) (header_default notfound : CString) where
  -- checkcmd on the items of the text, which the parser may refuse
  unfoldable pub check_text : CString → CmdProcess → Server → Option Outcome
  check_text get pc s = elim (parse get) [
    | none ↦ checkcmd restor reg none pc none s
    | some es ↦ init_json_parser es >>= λ t. checkcmd restor reg (some t) pc none s
  ]

  abbrev pub process_of : ℕ → CString → CString → Transport → CmdProcess
  process_of client ip host transport = record {
    guser = none;
    sub = none;
    client = client;
    host = host;
    ip = ip;
    transport = transport;
  }

  unfoldable pub commanded : ℕ → CmdProcess → CString → Server → Out → Option Received
  unfolding check_text
  commanded client pc get s o = do
    outcome ← check_text get pc s
    some (record {
      server = shut_for outcome.answer client outcome.server;
      out = o;
      closed = false;
      upgraded = none;
      user = outcome.iuser;
    })

  -- CONTENT_NOTFOUND
  unfoldable pub without_text : ℕ → Server → Out → Received
  without_text client s o = record {
    server = record s { shut = client ∷ s.shut };
    out = say notfound (say header_default o);
    closed = false;
    upgraded = none;
    user = none;
  }

  unfoldable pub by_transport :
      ℕ → CString → Ready → CString → CString → CString → Transport → Server → Out → Option Received
  unfolding upgrade commanded without_text
  by_transport client ip http eight host uri t s o = elim (is_websocket t) [
    | true ↦ some (upgrade d host uri http.hlines eight s o)
    | false ↦ elim http.query [
      | none ↦ some (without_text client s o)
      | some get ↦ commanded client (process_of client ip host t) get s o
    ]
  ]

  unfoldable pub checkrecv : ℕ → CString → Ready → CString → Server → Out → Option Received
  unfolding gettransport by_transport
  checkrecv client ip http eight s o = elim http.host [
    | none ↦ some (refused s o)
    | some host ↦
        http.uri >>= λ uri. by_transport client ip http eight host uri (gettransport uri) s o
  ]

  abbrev websocket_transport : WsVersion → Transport
  websocket_transport ws_ietf_06 = websocket_ietf
  websocket_transport ws_ietf_07 = websocket_ietf
  websocket_transport _ = websocket

  -- the payload of a frame; what checkcmd answers is not looked at
  unfoldable pub checkrecv_websocket :
      ℕ → CString → CString → WsVersion → CString → Server → Option (Option Sub × Server)
  unfolding check_text
  checkrecv_websocket client ip host version payload s = do
    outcome ← check_text payload (process_of client ip host (websocket_transport version)) s
    some (outcome.iuser, outcome.server)
