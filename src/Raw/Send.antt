-- ===== src/Raw/Send.antt =====
-- send_raws and raws_size of src/raw.c: what waits in the pools goes out as one list, the raws of
-- high priority first and the newest of them first, then the others in order.
-- `none` is an access through NULL or to memory that is not allocated.
use ape_server.Prelude.{
  ℕ, zero, suc, ◌+◌, ◌/◌, ◌%◌, Bool, true, false, ◌||◌, Option, none, some, List, [], ◌∷◌, ltb, leb,
  ◌==◌, if◌then◌else◌, length, set, get_elem?,
}
use ape_server.Prelude.Text.{CString, codes}
use ape_server.Sock.Say.{Out, say}
use ape_server.Sock.{Socket}
use ape_server.Http.Response.{Response, http_send_headers}
use ape_server.Transports.{
  Transport, xhrstreaming, jsonp, sse_longpolling, websocket, websocket_ietf, Padding, Transports,
  transport_get_properties,
}
use ape_server.Raw.Heap.{Heap, free_raw}
use ape_server.Raw.Pool.{Pool}

infixl 5 ◌>>=◌
abbrev pub ◌>>=◌ {ℓ κ} : {A : Type ℓ} {B : Type κ} → Option A → (A → Option B) → Option B
none >>= f = none
some a >>= f = f a

-- sub->raw_pools
pub record Pools : Type 0 where
  pub low : Pool
  pub high : Pool
  pub nraw : ℕ

unfoldable pub say_pad : Option CString → Out → Out
say_pad none o = o
say_pad (some pad) o = say pad o

abbrev pub left_pad : Option Padding → Option CString
left_pad none = none
left_pad (some p) = p.left

abbrev pub right_pad : Option Padding → Option CString
right_pad none = none
right_pad (some p) = p.right

-- "," behind a raw that another follows, and "]" with the right pad behind the last
unfoldable pub separate : Bool → Option CString → Out → Out
unfolding say_pad
separate true pad o = say (codes ",") o
separate false pad o = say_pad pad (say (codes "]") o)

-- pool != NULL && pool->raw != NULL
abbrev pub has_raw : Option (Option ℕ) → Bool
has_raw (some (some r)) = true
has_raw _ = false

abbrev pub first_cell : List (Option ℕ) → Option (Option ℕ)
first_cell [] = none
first_cell (c ∷ cs) = some c

-- the cell before the k-th
abbrev pub cell_before : List (Option ℕ) → ℕ → Option (Option ℕ)
cell_before cells zero = none
cell_before cells (suc k) = get_elem? cells k

-- one raw is written, with what stands behind it, and its reference given up
unfoldable pub send_one : ℕ → Bool → Option CString → Heap → Out → Option (Heap × Out)
unfolding separate
send_one r more pad h o = do
  raw ← h r
  h' ← free_raw r h
  some (h', separate more pad (say raw.content o))

-- The loop in state 1: forward through the low pool. Behind the last cell is NULL.
unfoldable pub send_low :
    List (Option ℕ) → Option CString → Heap → Out → Option (List (Option ℕ) × Heap × Out)
unfolding send_one
send_low [] pad h o = none
send_low (none ∷ cs) pad h o = some (none ∷ cs, h, o)
send_low (some r ∷ cs) pad h o = do
  (h', o') ← send_one r (has_raw (first_cell cs)) pad h o
  (cs', h'', o'') ← send_low cs pad h' o'
  some (none ∷ cs', h'', o'')

-- The loop in state 0: backward through the high pool, from the cell before the k-th.
unfoldable pub send_high :
    ℕ → List (Option ℕ) → Bool → Option CString → Heap → Out → Option (List (Option ℕ) × Heap × Out)
unfolding send_one
send_high zero cells low pad h o = some (cells, h, o)
send_high (suc k) cells low pad h o = elim (get_elem? cells k) [
  | none ↦ none
  | some none ↦ some (cells, h, o)
  | some (some r) ↦ do
    (h', o') ← send_one r (has_raw (cell_before cells k) || low) pad h o
    send_high k (set cells k none) low pad h' o'
]

-- the same two walks in raws_size
unfoldable pub size_low : List (Option ℕ) → Heap → ℕ → Option ℕ
size_low [] h size = none
size_low (none ∷ cs) h size = some size
size_low (some r ∷ cs) h size = do raw ← h r; size_low cs h (size + (length raw.content + 1))

unfoldable pub size_high : ℕ → List (Option ℕ) → Heap → ℕ → Option ℕ
size_high zero cells h size = some size
size_high (suc k) cells h size = elim (get_elem? cells k) [
  | none ↦ none
  | some none ↦ some size
  | some (some r) ↦ do raw ← h r; size_high k cells h (size + (length raw.content + 1))
]

-- `pool = user->raw_pools.high.rawfoot->prev`, which is read at once
abbrev pub start_high {ℓ} : {A : Type ℓ} → Pool → (ℕ → Option A) → Option A
start_high p walk = elim p.foot [ zero ↦ none | suc k ↦ walk (suc k) ]

unfoldable pub raws_size : Pools → Heap → Option ℕ
unfolding size_low size_high
raws_size p h =
    if p.nraw == 0
    then some 0
    else if ltb 0 p.high.nraw
    then (do
      size ← start_high p.high (λ k. size_high k p.high.cells h 1)
      size_low p.low.cells h size)
    else size_low p.low.cells h 1

-- WS_IETF_06 and the others
pub data WsVersion : Type 0 where
  ws_old ws_76 ws_ietf_06 ws_ietf_07 : WsVersion

abbrev pub opcode : WsVersion → ℕ
opcode ws_ietf_06 = 0x84
opcode _ = 0x81

-- The head of a frame: the length in 7 bits, or in 2 or 8 bytes behind a mark, in network order.
unfoldable pub payload_head : WsVersion → ℕ → CString
payload_head version size =
    if leb size 125
    then opcode version ∷ size % 128 ∷ []
    else if leb size 65535
    then opcode version ∷ 126 ∷ size / 256 % 256 ∷ size % 256 ∷ []
    else opcode version
      ∷ 127
      ∷ 0
      ∷ 0
      ∷ 0
      ∷ 0
      ∷ size / 16777216 % 256
      ∷ size / 65536 % 256
      ∷ size / 256 % 256
      ∷ size % 256
      ∷ []

unfoldable pub say_head : Transport → WsVersion → Pools → Heap → Out → Option Out
unfolding raws_size payload_head
say_head websocket_ietf version p h o = do
  size ← raws_size p h
  some (say (payload_head version size) o)
say_head _ version p h o = some o

-- `low.rawfoot = low.rawhead`, and the counts
abbrev pub reset : List (Option ℕ) → Pool → Pool
reset cells p = record p { cells = cells; foot = 0; nraw = 0 }

-- The list, from "[" on, and the pools and the heap behind it.
unfoldable pub send_list : Pools → Option CString → Heap → Out → Option (Pools × Heap × Out)
unfolding send_low send_high
send_list p pad h o =
    if ltb 0 p.high.nraw
    then (do
      (high, h', o') ← start_high p.high (λ k. send_high k p.high.cells (ltb 0 p.low.nraw) pad h o)
      (low, h'', o'') ← send_low p.low.cells pad h' o'
      some (record { low = reset low p.low; high = reset high p.high; nraw = 0 }, h'', o''))
    else (do
      (low, h', o') ← send_low p.low.cells pad h o
      some (record { low = reset low p.low; high = reset p.high.cells p.high; nraw = 0 }, h', o'))

-- user->headers; the constants HEADER_XHR, HEADER_SSE, HEADER_JSONP and HEADER_DEFAULT are given
pub record Headers : Type 0 where
  pub sent : Bool
  pub content : Option Response

pub record Defaults : Type 0 where
  pub xhr : CString
  pub sse : CString
  pub jsonp_header : CString
  pub default_header : CString

unfoldable pub say_headers : Transport → Defaults → Option Response → Out → Option Out
say_headers xhrstreaming d content o = http_send_headers content d.xhr o
say_headers sse_longpolling d content o = http_send_headers content d.sse o
say_headers jsonp d content o = http_send_headers content d.jsonp_header o
say_headers websocket d content o = some o
say_headers websocket_ietf d content o = some o
say_headers _ d content o = http_send_headers content d.default_header o

-- a connection, as far as send_raws reads and writes it
pub record Client : Type 0 where
  pub transport : Transport
  pub version : WsVersion
  pub headers : Headers
  pub pools : Pools
  pub socket : Socket

unfoldable pub due_headers : Client → Defaults → Out → Option Out
unfolding say_headers
due_headers c d o = if c.headers.sent then some o else say_headers c.transport d c.headers.content o

unfoldable pub send_raws : Transports → Defaults → Client → Heap → Option (Client × Heap × Bool)
unfolding due_headers say_pad say_head send_list
send_raws ts d c h =
    let properties = transport_get_properties c.transport ts in
    if c.pools.nraw == 0 then some (c, h, true) else (do
      o₁ ← due_headers c d (record { socket = c.socket; finish = true })
      o₂ ← say_head c.transport c.version c.pools h (say_pad (left_pad properties) o₁)
      (pools, h', o₃) ← send_list c.pools (right_pad properties) h (say (codes "[") o₂)
      some (
        record c { headers = record c.headers { sent = true }; pools = pools; socket = o₃.socket },
        h',
        o₃.finish,
      ))
