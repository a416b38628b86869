-- ===== src/Websocket.antt =====
-- process_websocket_frame of src/http.c, with the websocket_state of src/main.h: the frames that a
-- client sends (draft-ietf-hybi-thewebsocketprotocol-07), each masked with a key of four bytes.
-- The bytes of the buffer are `seen`, up to websocket->offset, and `rest`; a read adds to `rest`.
-- What the parser calls in turn (`onready`) and what is sent is the output, in order; the
-- handler behind `onready` does not touch the reader.
pub mod View
pub mod Shows
pub mod Chunks
pub mod Mask
pub mod Client
pub mod Lengths
pub mod Payloads
pub mod Bounds
pub mod Empty
pub mod Older
use ape_server.Prelude.{
  ℕ, suc, ◌+◌, ◌*◌, ◌-◌, ◌/◌, ◌%◌, ◌^◌, Bool, true, false, Option, none, some, List, [], ◌∷◌, ◌++◌,
  ◌==◌, ltb, if◌then◌else◌, length, drop, get_elem?, update, bit_xor,
}
use ape_server.Prelude.Text.{CString}

-- ws_payload_step
pub data Step : Type 0 where
  ws_step_key ws_step_start ws_step_length ws_step_short_length : Step
  ws_step_extended_length ws_step_data : Step

-- websocket_state without what points into the buffer. `key` is key.val up to key.pos; `frame` has
-- the bytes of frame_payload, which the source overwrites before it reads them again;
-- `frame_count` is frame_pos + 1, since frame_pos is -1 when a frame ends.
pub record Reader : Type 0 where
  pub step : Step
  pub frame_count : ℕ
  pub key : List ℕ
  pub data_inkey : ℕ
  pub start : ℕ
  pub frame : ℕ → ℕ
  pub extended_length : ℕ

pub data Output : Type 0 where
  onready : CString → Output
  send : CString → Bool → Output

-- as parser_init_stream and checkrecv leave it
abbrev pub parser_init_stream : Reader
parser_init_stream = record {
  step = ws_step_start;
  frame_count = 1;
  key = [];
  data_inkey = 0;
  start = 0;
  frame = λ _. 0;
  extended_length = 0;
}

unfoldable pub take_key : Reader → ℕ → Reader
take_key r b =
    if length r.key + 1 == 4
    then record r { key = r.key ++ b ∷ []; step = ws_step_data; data_inkey = 0 }
    else record r { key = r.key ++ b ∷ [] }

-- the 7 bits of the length
unfoldable pub take_length : Reader → ℕ → Reader
take_length r n =
    if n == 126
    then record r { step = ws_step_short_length }
    else if n == 127
    then record r { step = ws_step_extended_length }
    else record r { extended_length = n; step = ws_step_key }

-- memcpy of one byte into frame_payload
abbrev pub put_byte : Reader → ℕ → ℕ → ℕ
put_byte r b = update r.frame (r.frame_count - 1) b

-- ntohs
unfoldable pub take_short : Reader → ℕ → Reader
take_short r b =
    let f = put_byte r b in
    if r.frame_count == 4
    then record r { frame = f; extended_length = f 2 * 256 + f 3; step = ws_step_key }
    else record r { frame = f }

-- ntohl of the upper half, on a machine that is little-endian: the last four of the eight bytes
unfoldable pub take_extended : Reader → ℕ → Reader
take_extended r b =
    let f = put_byte r b in
    if r.frame_count == 10
    then record r {
      frame = f;
      extended_length = ((f 6 * 256 + f 7) * 256 + f 8) * 256 + f 9;
      step = ws_step_key;
    }
    else record r { frame = f }

-- A byte in front of the payload. `none`: the frame is not masked, and the reader stays there.
unfoldable pub header : Step → Reader → ℕ → Option Reader
unfolding take_key take_length take_short take_extended
header ws_step_key r b = some (take_key r b)
header ws_step_start r b = some (record r { start = b; step = ws_step_length })
header ws_step_length r b = if b / 128 % 2 == 0 then none else some (take_length r (b % 128))
header ws_step_short_length r b = some (take_short r b)
header ws_step_extended_length r b = some (take_extended r b)
header ws_step_data r b = some r

-- key.val at an index
unfoldable pub key_byte : List ℕ → ℕ → ℕ
key_byte key i = elim (get_elem? key i) [ none ↦ 0 | some k ↦ k ]

-- the byte of the payload, and the reader past it; the length is 64 bits wide
abbrev pub unmask : Reader → ℕ → ℕ
unmask r b = bit_xor b (key_byte r.key (r.data_inkey % 4))

abbrev pub count_down : Reader → Reader
count_down r = record r {
  data_inkey = r.data_inkey + 1;
  extended_length = (r.extended_length + 2 ^ 64 - 1) % 2 ^ 64;
}

abbrev pub end_frame : Reader → Reader
end_frame r = record r { step = ws_step_start; frame_count = 0; extended_length = 0; key = [] }

-- The switch on the opcode, and whether the reader stays there. A payload has a byte at least.
unfoldable pub deliver : ℕ → CString → List Output × Bool
deliver opcode payload =
    if opcode == 8
    then (send (0x88 ∷ 0 ∷ []) false ∷ [], true)
    else if opcode == 9
    then if ltb 125 (length payload)
      then (send (0x88 ∷ 0 ∷ []) true ∷ [], true)
      else (send (0x8a ∷ length payload % 128 ∷ []) false ∷ send payload false ∷ [], false)
    else if opcode == 10
    then ([], false)
    else (onready payload ∷ [], false)

abbrev pub next_byte : Reader → Reader
next_byte r = record r { frame_count = r.frame_count + 1 }

pub record State : Type 0 where
  pub seen : List ℕ
  pub rest : List ℕ
  pub data_pos : ℕ
  pub reader : Reader

-- `if (websocket->data_pos == 0)`
abbrev pub start_at : ℕ → ℕ → ℕ
start_at data_pos offset = if data_pos == 0 then offset else data_pos

abbrev pub prepend : List Output → State × List Output → State × List Output
prepend out (s, more) = (s, out ++ more)

-- The end of a frame, when `seen` has its last byte and `more` is what the loop does behind it.
unfoldable pub frame_end :
    List ℕ → ℕ → List ℕ → Reader → CString → State × List Output → State × List Output
unfolding deliver
frame_end seen b rest r payload more =
    let (out, stays) = deliver (r.start % 16) payload in
    if stays
    then (record { seen = seen; rest = b ∷ rest; data_pos = 0; reader = end_frame r }, out)
    else elim rest [
      | [] ↦ (record { seen = []; rest = []; data_pos = 0; reader = next_byte (end_frame r) }, out)
      | c ∷ cs ↦ prepend out more
    ]

abbrev pub is_data : Step → Bool
is_data ws_step_data = true
is_data _ = false

-- the loop
unfoldable pub frame_loop : List ℕ → List ℕ → ℕ → Reader → State × List Output
unfolding header key_byte frame_end
frame_loop seen [] data_pos r =
    (record { seen = seen; rest = []; data_pos = data_pos; reader = r }, [])
frame_loop seen (b ∷ rest) data_pos r = elim (is_data r.step) [
  | true ↦
      let c = unmask r b in
      let pos = start_at data_pos (length seen) in
      let r' = count_down r in
      let seen' = seen ++ c ∷ [] in
      elim (r'.extended_length == 0) [
        | true ↦
            frame_end seen c rest r' (drop pos seen')
              (frame_loop seen' rest 0 (next_byte (end_frame r')))
        | false ↦ frame_loop seen' rest pos (next_byte r')
      ]
  | false ↦ elim (header r.step r b) [
    | none ↦ (record { seen = seen; rest = b ∷ rest; data_pos = data_pos; reader = r }, [])
    | some r' ↦ frame_loop (seen ++ b ∷ []) rest data_pos (next_byte r')
  ]
]
