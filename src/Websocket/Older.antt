-- ===== src/Websocket/Older.antt =====
-- process_websocket of src/http.c for the framing before the drafts of the IETF: a message stands
-- between a byte 0x00 and a byte 0xFF. The bytes of the buffer from websocket->offset are `rest`; they
-- are empty only where the buffer is, since both offset and length are set to 0 when they meet. The
-- parser of a stream sets `ready` to 0 and to -1 alone, so that the test on 1 never holds.
pub mod Watched
pub mod Reads
pub mod Texts
use ape_server.Prelude.{
  ℕ, zero, suc, ◌+◌, ◌-◌, Bool, true, false, Option, none, some, List, [], ◌∷◌, ◌++◌, ◌==◌, ltb,
  if◌then◌else◌, length,
}
use ape_server.Prelude.Text.{CString}
use ape_server.Raw.Send.{◌>>=◌}
use ape_server.Http.Header.{c_string}

abbrev pub put_in_front : ℕ → Option (List ℕ × List ℕ) → Option (List ℕ × List ℕ)
put_in_front b none = none
put_in_front b (some (m, after)) = some (b ∷ m, after)

-- the bytes in front of the first 0xFF, and those behind it
unfoldable pub up_to_mark : List ℕ → Option (List ℕ × List ℕ)
up_to_mark [] = none
up_to_mark (b ∷ bs) =
    let found = up_to_mark bs in if b == 255 then some ([], bs) else put_in_front b found

-- The message from pData[1], and what is behind it. The loop looks at a byte only after data++, so
-- that it never looks at the first one, nor at the second where the first is 0.
unfoldable pub next_message : List ℕ → Option (List ℕ × List ℕ)
unfolding up_to_mark
next_message [] = none
next_message (b ∷ []) = none
next_message (b ∷ c ∷ cs) = if b == 0 then put_in_front c (up_to_mark cs) else up_to_mark (c ∷ cs)

-- What onready is called with, each as the string at websocket->data, and the bytes that are left;
-- `none` is the want of fuel. The function calls itself where bytes are left behind a message.
unfoldable pub message_loop : ℕ → List ℕ → Option (List CString × List ℕ)
unfolding next_message
message_loop zero rest = none
message_loop (suc fuel) rest = elim (next_message rest) [
  | none ↦ some ([], rest)
  | some r ↦ elim r.1 [
    | [] ↦ some (c_string r.0 ∷ [], [])
    | a ∷ after ↦ message_loop fuel (a ∷ after) >>= λ l. some (c_string r.0 ∷ l.0, l.1)
  ]
]

-- the offset and the bytes behind it
pub record Buffer : Type 0 where
  pub offset : ℕ
  pub rest : List ℕ

pub record Parsed : Type 0 where
  pub buffer : Buffer
  pub messages : List CString
  pub shut : Bool

abbrev pub left_behind : Buffer → List CString × List ℕ → Parsed
left_behind b (ms, []) = record {
  buffer = record { offset = 0; rest = [] };
  messages = ms;
  shut = false;
}
left_behind b (ms, c ∷ cs) = record {
  buffer = record { offset = b.offset + (length b.rest - length (c ∷ cs)); rest = c ∷ cs };
  messages = ms;
  shut = false;
}

abbrev pub max_buffer : ℕ
max_buffer = 502400

unfoldable pub process_websocket : Buffer → Option Parsed
unfolding message_loop
process_websocket b =
    let size = b.offset + length b.rest in
    if size == 0
    then some (record { buffer = b; messages = []; shut = false })
    else if ltb max_buffer size
    then some (record { buffer = b; messages = []; shut = true })
    else message_loop (suc (length b.rest)) b.rest >>= λ l. some (left_behind b l)

-- a read of some bytes
unfoldable pub read_more : List ℕ → Buffer → Option Parsed
unfolding process_websocket
read_more bytes b = process_websocket (record { offset = b.offset; rest = b.rest ++ bytes })

abbrev pub later : List CString → Parsed → Parsed
later ms p = record { buffer = p.buffer; messages = ms ++ p.messages; shut = p.shut }

-- reads, up to one that shuts the connection down
unfoldable pub feed_all : List (List ℕ) → Buffer → Option Parsed
unfolding read_more
feed_all [] b = some (record { buffer = b; messages = []; shut = false })
feed_all (bytes ∷ reads) b = read_more bytes b >>= λ p. elim p.shut [
  | true ↦ some p
  | false ↦ feed_all reads p.buffer >>= λ q. some (later p.messages q)
]
