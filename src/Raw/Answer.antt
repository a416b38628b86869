-- ===== src/Raw/Answer.antt =====
-- send_raws, whole, on a connection whose headers are sent.
use ape_server.Prelude.{
  ℕ, ◌<◌, ◌≡◌, refl, Bool, true, false, Option, none, some, List, [], ◌++◌, map, arith, ◌==◌,
  length,
}
use ape_server.Prelude.Text.{CString, codes}
use ape_server.Sock.Say.{Out, say, Said, say-Said, Said-refl, Said-trans}
use ape_server.Sock.Stream.{IsSocket, stream}
use ape_server.Transports.{
  Transport, longpolling, xhrstreaming, jsonp, persistant, sse_longpolling, sse_jsonp, websocket,
  websocket_ietf, Transports, transport_get_properties,
}
use ape_server.Raw.Heap.{Heap, content_of, Owns}
use ape_server.Raw.Pool.{HoldsRaws}
use ape_server.Raw.Send.{
  ◌>>=◌, Pools, WsVersion, payload_head, raws_size, say_pad, say_head, left_pad, right_pad,
  Defaults, due_headers, Client, send_raws,
}
use ape_server.Raw.Listing.{listing, pad_text, Released}
use ape_server.Raw.Frame.{raws_size-listing}
use ape_server.Raw.Whole.{waiting, send_list-IsSent}

-- the list, from "[" on
abbrev pub list_text : Option CString → Heap → List ℕ → CString
list_text pad h rs = codes "[" ++ listing pad (map (content_of h) rs)

-- the head of the frame for a list of that length
abbrev pub head_text : Transport → WsVersion → ℕ → CString
head_text websocket_ietf version size = payload_head version size
head_text _ version size = []

-- everything that one call of send_raws sends
abbrev pub answer : Transports → Client → Heap → List ℕ → CString
answer ts c h rs =
    let properties = transport_get_properties c.transport ts in
    pad_text (left_pad properties)
    ++ (head_text c.transport c.version (length (list_text none h rs))
        ++ list_text (right_pad properties) h rs)

say_pad-Said :
    (pad : Option CString) (o : Out) → IsSocket o.socket → Said o (pad_text pad) (say_pad pad o)
unfolding say_pad
say_pad-Said none o v = Said-refl o v
say_pad-Said (some p) o v = say-Said p o v

say_head-Said :
    (t : Transport) (version : WsVersion) (p : Pools) (h : Heap) (o : Out) (size : ℕ)
    → raws_size p h ≡ some size
    → IsSocket o.socket
    → (o' : Out) × (say_head t version p h o ≡ some o') × Said o (head_text t version size) o'
unfolding say_head
say_head-Said websocket_ietf version p h o size e v =
    (say (payload_head version size) o, rw e refl, say-Said (payload_head version size) o v)
say_head-Said longpolling version p h o size e v = (o, refl, Said-refl o v)
say_head-Said xhrstreaming version p h o size e v = (o, refl, Said-refl o v)
say_head-Said jsonp version p h o size e v = (o, refl, Said-refl o v)
say_head-Said persistant version p h o size e v = (o, refl, Said-refl o v)
say_head-Said sse_longpolling version p h o size e v = (o, refl, Said-refl o v)
say_head-Said sse_jsonp version p h o size e v = (o, refl, Said-refl o v)
say_head-Said websocket version p h o size e v = (o, refl, Said-refl o v)

-- What a call of send_raws comes to.
pub record IsAnswered (ts : Transports) (c : Client) (rs : List ℕ) (h : Heap) (c' : Client)
    (h' : Heap) : Type 0 where
  pub low : HoldsRaws c'.pools.low []
  pub high : HoldsRaws c'.pools.high []
  pub nraw : c'.pools.nraw ≡ 0
  pub socket : IsSocket c'.socket
  pub bytes : stream c'.socket ≡ stream c.socket ++ answer ts c h rs
  pub released : Released h rs h'

due_headers-sent :
    (c : Client) (d : Defaults) (o : Out) → c.headers.sent ≡ true → due_headers c d o ≡ some o
unfolding due_headers
due_headers-sent c d o e = rw e refl

-- When the headers are sent, raws wait that are owned, and the socket has a descriptor, a well-
-- formed buffer and a kernel that reports no error, send_raws meets no NULL pointer and no memory
-- that is freed; it sends the left padding of the transport, for the later WebSocket the head of
-- a frame for the length of the list, the list of all raws, and the right padding, empties the
-- pools and gives up one reference of each raw.
pub send_raws-IsAnswered :
    (ts : Transports) (d : Defaults) (c : Client) (his los : List ℕ) (h : Heap)
    → c.headers.sent ≡ true
    → HoldsRaws c.pools.high his
    → HoldsRaws c.pools.low los
    → Owns h (waiting his los)
    → 0 < c.pools.nraw
    → IsSocket c.socket
    → (c' : Client) × (h' : Heap) × (finish : Bool) × (send_raws ts d c h ≡ some (c', h', finish))
      × IsAnswered ts c (waiting his los) h c' h'
unfolding send_raws
send_raws-IsAnswered ts d c his los h sent hi lo own some_raw v =
    let properties = transport_get_properties c.transport ts in
    let o : Out = record { socket = c.socket; finish = true } in
    let padded = say_pad-Said (left_pad properties) o v in
    let size = raws_size-listing c.pools his los h hi lo own some_raw in
    let (o₂, run, headed) =
      say_head-Said c.transport c.version c.pools h (say_pad (left_pad properties) o)
        (length (list_text none h (waiting his los))) size padded.valid in
    let opened = say-Said (codes "[") o₂ headed.valid in
    let done =
      send_list-IsSent c.pools his los (right_pad properties) h (say (codes "[") o₂) hi lo own
        opened.valid in
    let all = Said-trans padded (Said-trans headed (Said-trans opened done.said)) in
    let busy : (c.pools.nraw == 0) ≡ false = ground (arith, some_raw) in
    (
      record c {
        headers = record c.headers { sent = true };
        pools = done.pools;
        socket = done.out.socket;
      },
      done.heap,
      done.out.finish,
      rw (busy, due_headers-sent c d o sent, ◌>>=◌, run, ◌>>=◌, done.run) refl,
      record {
        low = done.low;
        high = done.high;
        nraw = done.nraw;
        socket = all.valid;
        bytes = all.bytes;
        released = done.released;
      },
    )
