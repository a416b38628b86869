-- ===== src/Http/Response.antt =====
-- The headers of a response: http_headers_init, http_headers_set_field and http_send_headers of
-- src/http.c, and itos of src/utils.c for a code of three digits.
use ape_server.Prelude.{
  ℕ, ◌+◌, ◌/◌, ◌%◌, Bool, Option, none, some, List, [], ◌∷◌, leb, ltb, if◌then◌else◌, length, take,
  ◌||◌, ◌&&◌,
}
use ape_server.Prelude.Text.{CString, codes, casecmp}
use ape_server.Sock.Say.{Out, say}

-- struct _http_headers_fields
pub record Field : Type 0 where
  pub key : CString
  pub value : CString

-- struct _http_headers_response
pub record Response : Type 0 where
  pub code : ℕ
  pub detail : CString
  pub fields : List Field

-- `code < 100 && code >= 600` is never true
unfoldable pub http_headers_init : ℕ → CString → Option Response
http_headers_init code detail =
    if ltb 63 (length detail) || (ltb code 100 && leb 600 code)
    then none
    else some (record { code = code; detail = detail; fields = [] })

-- strncasecmp(a, b, n) == 0
unfoldable pub ncasecmp : CString → CString → ℕ → Bool
ncasecmp a b n = casecmp (take n a) (take n b)

-- the value of the first field whose key begins as `key`, and then its key too; else a new field
-- at the end
unfoldable pub set_field : CString → CString → List Field → List Field
unfolding ncasecmp
set_field key value [] = record { key = key; value = value } ∷ []
set_field key value (f ∷ fs) =
    if ncasecmp f.key key (length key)
    then record { key = key; value = value } ∷ fs
    else f ∷ set_field key value fs

unfoldable pub http_headers_set_field : CString → CString → Response → Response
unfolding set_field
http_headers_set_field key value h =
    if leb 32 (length key) then h else record h { fields = set_field key value h.fields }

-- itos(code, out, 4) for 100 <= code <= 999: three digits
unfoldable pub itos3 : ℕ → CString
itos3 n = (48 + n / 100 % 10) ∷ (48 + n / 10 % 10) ∷ (48 + n % 10) ∷ []

crlf : CString
crlf = 13 ∷ 10 ∷ []

unfoldable pub say_field : Field → Out → Out
unfolding crlf
say_field f o = say crlf (say f.value (say (codes ": ") (say f.key o)))

-- The loop goes on twice: `fields = fields->next` in its body and in its head. `none` is the
-- access through NULL when the body has met the last field.
unfoldable pub say_fields : List Field → Out → Option Out
unfolding say_field
say_fields [] o = some o
say_fields (f ∷ []) o = none
say_fields (f ∷ g ∷ fs) o = say_fields fs (say_field f o)

abbrev pub say_status : Response → Out → Out
say_status h o =
    say (13 ∷ 10 ∷ [])
      (say h.detail (say (codes " ") (say (itos3 h.code) (say (codes "HTTP/1.1 ") o))))

abbrev pub end_headers : Option Out → Option Out
end_headers none = none
end_headers (some o) = some (say (13 ∷ 10 ∷ []) o)

unfoldable pub http_send_headers : Option Response → CString → Out → Option Out
unfolding say_fields itos3
http_send_headers none default_h o = some (say default_h o)
http_send_headers (some h) default_h o = end_headers (say_fields h.fields (say_status h o))
