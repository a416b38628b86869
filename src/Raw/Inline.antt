-- ===== src/Raw/Inline.antt =====
-- send_raw_inline of src/raw.c: a raw that goes out at once, without a connection of a user.
use ape_server.Prelude.{◌+◌, Option, none, some, length}
use ape_server.Prelude.Text.{CString, codes}
use ape_server.Sock.Say.{Out, say}
use ape_server.Transports.{Transport, websocket_ietf, Transports, transport_get_properties}
use ape_server.Raw.Send.{
  ◌>>=◌, WsVersion, Defaults, say_headers, say_pad, left_pad, right_pad, payload_head,
}

-- "[" and "]" stand around the raw, and count in the length of a frame
unfoldable pub say_frame : Transport → WsVersion → CString → Out → Out
unfolding payload_head
say_frame websocket_ietf version content o = say (payload_head version (length content + 2)) o
say_frame _ version content o = o

-- The raw is not used after its text is out.
unfoldable pub send_raw_inline :
    Transports → Defaults → WsVersion → Transport → CString → Out → Option Out
unfolding say_headers say_pad say_frame
send_raw_inline ts d version transport content o = do
  o₁ ← say_headers transport d none o
  let properties = transport_get_properties transport ts
  let o₂ = say_frame transport version content (say_pad (left_pad properties) o₁)
  some (say_pad (right_pad properties) (say (codes "]") (say content (say (codes "[") o₂))))
