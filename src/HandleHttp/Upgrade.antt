-- ===== src/HandleHttp/Upgrade.antt =====
-- The handshake of the current WebSocket draft, from the header lines of a request to its answer.
use ape_server.Prelude.{
  ℕ, ◌≤◌, ◌&&◌, ◌≡◌, refl, ap, ◌∙◌, arith, true, false, Option, none, some, List, [], ◌∷◌, ◌++◌,
  ◌==◌, length, ltb, if◌then◌else◌,
}
use ape_server.Prelude.Text.{CString, codes}
use ape_server.Raw.Send.{WsVersion, ws_ietf_06, ws_ietf_07}
use ape_server.Sock.Stream.{IsSocket}
use ape_server.Sock.Say.{Out, Said, say-Said, Said-trans}
use ape_server.Http.Header.{HeaderLine, get_header_line, atoi}
use ape_server.Http.Request.{Ready}
use ape_server.Json.Reader.{Event}
use ape_server.Commands.{Registry}
use ape_server.Commands.Server.{Server, Sub}
use ape_server.Commands.Call.{Call}
use ape_server.HandleHttp.{
  Digests, ietf, ws_ietf_guid, ws_compute_key, ietf_handshake, handshake_of, say_handshake, upgrade,
  or_else, shaken, with_origin, is_websocket, gettransport, by_transport, checkrecv,
}

abbrev crlf : CString
crlf = 13 ∷ 10 ∷ []

abbrev protocol_line : Option CString → CString
protocol_line none = []
protocol_line (some p) = (crlf ++ codes "Sec-WebSocket-Protocol: ") ++ p

-- the answer to a handshake, with the accepted key and the protocol that was asked for
unfoldable pub switching : CString → Option CString → CString
switching accept protocol =
    (codes "HTTP/1.1 101 Switching Protocols"
      ++ crlf
      ++ codes "Upgrade: WebSocket"
      ++ crlf
      ++ codes "Connection: Upgrade"
      ++ crlf)
    ++ (codes "Sec-WebSocket-Accept: " ++ (accept ++ (protocol_line protocol ++ (crlf ++ crlf))))

-- the version that the header line asks for
abbrev pub asked_version : CString → WsVersion
asked_version v = if (atoi v).0 && (atoi v).1 == 6 then ws_ietf_06 else ws_ietf_07

abbrev pub accept_key : Digests → CString → CString
accept_key d key = d.base64_encode (d.sha1_csum (key ++ ws_ietf_guid))

say_handshake-Said :
    (v : WsVersion) (accept origin host uri : CString) (protocol : Option CString) (o : Out)
    → IsSocket o.socket
    → Said o (switching accept protocol) (say_handshake (ietf v accept) origin host uri protocol o)
unfolding say_handshake switching
say_handshake-Said v accept origin host uri none o ok =
    let a = say-Said _ o ok in
    let b = say-Said (codes "Sec-WebSocket-Accept: ") _ a.valid in
    let c = say-Said accept _ b.valid in
    Said-trans a (Said-trans b (Said-trans c (say-Said (crlf ++ crlf) _ c.valid)))
say_handshake-Said v accept origin host uri (some p) o ok =
    let a = say-Said _ o ok in
    let b = say-Said (codes "Sec-WebSocket-Accept: ") _ a.valid in
    let c = say-Said accept _ b.valid in
    let e = say-Said (crlf ++ codes "Sec-WebSocket-Protocol: ") _ c.valid in
    let f = say-Said p _ e.valid in
    Said-trans a (
      Said-trans b (Said-trans c (Said-trans (Said-trans e f) (say-Said (crlf ++ crlf) _ f.valid))))

handshake_of-ietf :
    (d : Digests) (hlines : List HeaderLine) (eight key v : CString)
    → get_header_line hlines (codes "Sec-WebSocket-Key1") ≡ none
    → get_header_line hlines (codes "Sec-WebSocket-Key") ≡ some key
    → get_header_line hlines (codes "Sec-WebSocket-Version") ≡ some v
    → length key ≤ 32
    → handshake_of d hlines eight ≡ some (ietf (asked_version v) (accept_key d key))
unfolding handshake_of ws_compute_key ietf_handshake
handshake_of-ietf d hlines eight key v no_first is_key is_version short =
    rw (no_first, is_key, is_version, ltb-small key short) refl
  where
    ltb-small : (key : CString) → length key ≤ 32 → ltb 32 (length key) ≡ false
    ltb-small key short = ground (arith, short)

upgrade-ietf :
    (d : Digests) (hlines : List HeaderLine) (host uri eight origin key v : CString) (s : Server)
    (o : Out)
    → get_header_line hlines (codes "Origin") ≡ some origin
    → get_header_line hlines (codes "Sec-WebSocket-Key1") ≡ none
    → get_header_line hlines (codes "Sec-WebSocket-Key") ≡ some key
    → get_header_line hlines (codes "Sec-WebSocket-Version") ≡ some v
    → length key ≤ 32
    → upgrade d host uri hlines eight s o ≡ record {
      server = s;
      out =
          say_handshake
            (ietf (asked_version v) (accept_key d key))
            origin
            host
            uri
            (get_header_line hlines (codes "Sec-WebSocket-Protocol"))
            o;
      closed = false;
      upgraded = some (asked_version v);
      user = none;
    }
unfolding upgrade
upgrade-ietf d hlines host uri eight origin key v s o is_origin no_first is_key is_version short =
    ap
      (λ m.
        with_origin d host uri hlines eight s o
          (or_else m (get_header_line hlines (codes "Sec-WebSocket-Origin"))))
      is_origin
    ∙ ap (shaken origin host uri hlines s o)
        (handshake_of-ietf d hlines eight key v no_first is_key is_version short)

module _ (restor : Sub → Server → Option Server) (reg : Registry Call) (d : Digests)
    (parse : CString → Option (List Event)) (header_default notfound : CString) where
  -- For a request with a host, the address of a WebSocket, an Origin, no Sec-WebSocket-Key1, a
  -- Sec-WebSocket-Key of at most 32 bytes and a Sec-WebSocket-Version, on a valid socket: what is
  -- sent is the answer that switches the protocol, with the accepted key, which is computed from the
  -- key of the client, and with the protocol that was asked for, if any. The socket stays valid, the
  -- connection is not shut down, the server does not change, and the WebSocket that the connection
  -- becomes has the version 6 if that was asked for, and 7 otherwise.
  pub checkrecv-Said :
      (client : ℕ) (ip : CString) (http : Ready) (eight : CString) (s : Server) (o : Out)
      (host uri origin key v : CString)
      → IsSocket o.socket
      → http.host ≡ some host
      → http.uri ≡ some uri
      → is_websocket (gettransport uri) ≡ true
      → get_header_line http.hlines (codes "Origin") ≡ some origin
      → get_header_line http.hlines (codes "Sec-WebSocket-Key1") ≡ none
      → get_header_line http.hlines (codes "Sec-WebSocket-Key") ≡ some key
      → get_header_line http.hlines (codes "Sec-WebSocket-Version") ≡ some v
      → length key ≤ 32
      → (o' : Out) × (checkrecv restor reg d parse header_default notfound client ip http eight s o
          ≡ some (record {
            server = s;
            out = o';
            closed = false;
            upgraded = some (asked_version v);
            user = none;
          }))
        × Said o
            (switching
              (accept_key d key)
              (get_header_line http.hlines (codes "Sec-WebSocket-Protocol")))
            o'
  unfolding checkrecv by_transport
  checkrecv-Said client ip http eight s o host uri origin key v ok h u ws is_origin no_first is_key
        is_version short =
      let protocol = get_header_line http.hlines (codes "Sec-WebSocket-Protocol") in
      (
        say_handshake (ietf (asked_version v) (accept_key d key)) origin host uri protocol o,
        rw (checkrecv, h, u, by_transport, ws)
            (ap some (
              upgrade-ietf d http.hlines host uri eight origin key v s o is_origin no_first is_key
                is_version short)),
        say_handshake-Said (asked_version v) (accept_key d key) origin host uri protocol o ok,
      )
