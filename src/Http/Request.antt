-- ===== src/Http/Request.antt =====
-- process_http of src/http.c, with the http_state of src/main.h: a request, read from a buffer that
-- grows, until it is handed to checkrecv. A pointer into the buffer is an index. What stands beyond
-- buffer->length is NUL, and `parser->ready` is 1 during the call of onready alone.
use ape_server.Prelude.{
  ℕ, zero, suc, ◌+◌, ◌-◌, Bool, true, false, ◌&&◌, ◌||◌, Option, none, some, List, [], ◌∷◌, ◌++◌,
  ◌==◌, ltb, leb, if◌then◌else◌, length, drop, take, set,
}
use ape_server.Prelude.Text.{CString, codes, casecmp}
use ape_server.Http.Response.{ncasecmp}
use ape_server.Strings.{seof, urldecode}
use ape_server.Http.Header.{
  HeaderLine, head, c_string, starts_with, scan_uri, atoi, parse_header_line,
}

-- HTTP_NULL, HTTP_GET, HTTP_GET_WS, HTTP_POST
pub data Method : Type 0 where
  http_null http_get http_get_ws http_post : Method

-- http_state and the buffer, up to buffer->length. `none` as the content length is -1.
pub record Request : Type 0 where
  pub bytes : List ℕ
  pub step : ℕ
  pub method : Method
  pub pos : ℕ
  pub content_length : Option ℕ
  pub read : ℕ
  pub uri : Option ℕ
  pub query : Option ℕ
  pub hlines : List HeaderLine
  pub host : Option CString
  pub error : Bool

-- what onready finds: http->uri, http->data, http->host and http->hlines
pub record Ready : Type 0 where
  pub uri : Option CString
  pub query : Option CString
  pub host : Option CString
  pub hlines : List HeaderLine

pub data Event : Type 0 where
  onready : Ready → Event
  shut : Event

abbrev pub parser_init_http : Request
parser_init_http = record {
  bytes = [];
  step = 0;
  method = http_null;
  pos = 0;
  content_length = none;
  read = 0;
  uri = none;
  query = none;
  hlines = [];
  host = none;
  error = false;
}

abbrev pub max_content_length : ℕ
max_content_length = 51200

unfoldable pub method_of : CString → Option (Method × ℕ)
method_of line =
    if starts_with (codes "GET ") line
    then some (http_get, 4)
    else if starts_with (codes "POST") line
    then some (http_post, 5)
    else none

-- urldecode(http->uri), in its place
unfoldable pub urldecode_at : Option ℕ → List ℕ → List ℕ
urldecode_at none bytes = bytes
urldecode_at (some u) bytes =
    let s = urldecode (c_string (drop u bytes)) in
    take u bytes ++ s ++ 0 ∷ drop (u + length s + 1) bytes

abbrev pub text_at : List ℕ → Option ℕ → Option CString
text_at bytes none = none
text_at bytes (some p) = some (c_string (drop p bytes))

unfoldable pub ready_of : Request → List ℕ → Ready
ready_of r bytes = record {
  uri = text_at bytes r.uri;
  query = text_at bytes r.query;
  host = r.host;
  hlines = r.hlines;
}

-- how a call of process_http goes on: it returns, or it calls itself
pub data Next : Type 0 where
  stop : Request → List Event → Next
  again : Request → Next

abbrev pub fail : Request → Next
fail r = stop (record r { error = true }) (shut ∷ [])

unfoldable pub after_uri : Request → ℕ → ℕ → Option ℕ × Option ℕ → Next
after_uri r n i (none, query) = fail (record r { query = query })
after_uri r n i (some space, query) =
    again (record r { pos = n; step = 1; uri = some i; query = query; bytes = set r.bytes space 0 })

-- case 0, with a line of n bytes
unfoldable pub first_line : Request → CString → ℕ → Next
unfolding method_of after_uri
first_line r line n = elim (method_of line) [
  | none ↦ fail r
  | some (m, p) ↦
      let r' = record r { method = m } in
      if head (drop p line) == 47
      then after_uri r' n (r.pos + p) (scan_uri (r.pos + p + 1) r.query (drop (p + 1) line))
      else fail r'
]

abbrev pub to_content : Request → ℕ → Option ℕ → Next
to_content r n l =
    again (record r { content_length = l; query = some (r.pos + n); step = 2; pos = r.pos + n })

unfoldable pub blank_line : Method → Request → ℕ → Next
unfolding urldecode_at ready_of
blank_line http_get r n =
    stop (record r { bytes = []; pos = 0 })
      (onready (ready_of r (urldecode_at r.uri (set r.bytes r.pos 0))) ∷ [])
blank_line http_get_ws r n = to_content r n (some 8)
blank_line http_post r n = elim r.content_length [
  | none ↦ to_content r n none
  | some l ↦ if l == 0 then fail r else to_content r n (some l)
]
blank_line http_null r n = elim r.content_length [
  | none ↦ to_content r n none
  | some l ↦ if l == 0 then fail r else to_content r n (some l)
]

unfoldable pub add_line : Request → Option HeaderLine → Request
add_line r none = r
add_line r (some l) =
    let r' = record r { hlines = l ∷ r.hlines } in
    if casecmp l.key (codes "host") then record r' { host = some l.value } else r'

abbrev pub line_end : Request → ℕ → Next
line_end r n = again (record r { pos = r.pos + n })

unfoldable pub content_length_line : Request → ℕ → Bool × ℕ → Next
content_length_line r n (false, l) = fail r
content_length_line r n (true, l) =
    if l == 0 || ltb max_content_length l
    then fail r
    else line_end (record r { content_length = some l }) n

unfoldable pub header_fields : Method → Request → CString → ℕ → Next
unfolding atoi content_length_line ncasecmp
header_fields http_post r line n =
    if leb n 25 && ncasecmp (codes "content-length: ") line 16
    then content_length_line r n (atoi (drop 16 line))
    else line_end r n
header_fields http_get r line n =
    if ncasecmp (codes "Sec-WebSocket-Key1: ") line 20
    then line_end (record r { method = http_get_ws }) n
    else line_end r n
header_fields http_get_ws r line n = line_end r n
header_fields http_null r line n = line_end r n

-- case 1
unfoldable pub header_line : Request → CString → ℕ → Next
unfolding blank_line add_line header_fields parse_header_line
header_line r line n =
    if n == 1 || (n == 2 && head line == 13)
    then blank_line r.method r n
    else header_fields r.method (add_line r (parse_header_line line)) line n

-- `http->read >= http->contentlength`, and where the content ends
abbrev pub is_complete : ℕ → Option ℕ → Bool
is_complete read none = true
is_complete read (some l) = leb l read

abbrev pub content_end : ℕ → ℕ → Option ℕ → ℕ
content_end pos read none = pos - (read + 1)
content_end pos read (some l) = pos - (read - l)

-- case 2
unfoldable pub content : Request → Next
unfolding urldecode_at ready_of
content r =
    let all = r.read + (length r.bytes - r.pos) in
    let pos = length r.bytes in
    let r' = record r { pos = pos; read = all } in
    if is_complete all r.content_length
    then stop (record r' { bytes = [] })
        (onready (
            ready_of r' (set (urldecode_at r.uri r.bytes) (content_end pos all r.content_length) 0))
          ∷ [])
    else stop r' []

unfoldable pub with_line : Request → (Request → CString → ℕ → Next) → Next
with_line r f = elim (seof (c_string (drop r.pos r.bytes)) 10) [
  | none ↦ stop r []
  | some n ↦ f r (c_string (drop r.pos r.bytes)) n
]

unfoldable pub step_of : ℕ → Request → Next
unfolding with_line first_line header_line content
step_of n r =
    if n == 0
    then with_line r first_line
    else if n == 1
    then with_line r header_line
    else if n == 2
    then content r
    else stop r []

-- one call, up to the call of itself
unfoldable pub request_step : Request → Next
unfolding step_of
request_step r =
    if length r.bytes == 0 || r.error || (head (drop r.pos r.bytes) == 0)
    then stop r []
    else step_of r.step r

unfoldable pub process_http : ℕ → Request → Option (Request × List Event)
unfolding request_step
process_http zero r = none
process_http (suc fuel) r = elim (request_step r) [
  | stop r' events ↦ some (r', events)
  | again r' ↦ process_http fuel r'
]

-- a read, and the call that the event loop makes
unfoldable pub receive : Request → List ℕ → Option (Request × List Event)
unfolding process_http
receive r bs =
    let bytes = r.bytes ++ bs in process_http (length bytes + 2) (record r { bytes = bytes })
