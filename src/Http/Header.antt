-- ===== src/Http/Header.antt =====
-- parse_header_line and get_header_line of src/http.c, and what process_http reads from a string:
-- the method, the address and a number.
use ape_server.Prelude.{
  ℕ, ◌+◌, ◌-◌, ◌*◌, Bool, true, false, not, ◌&&◌, ◌||◌, Option, none, some, List, [], ◌∷◌, ◌++◌,
  ◌==◌, ltb, leb, if◌then◌else◌, drop,
}
use ape_server.Prelude.Text.{CString, casecmp}

-- _http_header_line
pub record HeaderLine : Type 0 where
  pub key : CString
  pub value : CString

abbrev pub is_end : ℕ → Bool
is_end c = c == 0 || c == 13 || c == 10

abbrev pub head : CString → ℕ
head [] = 0
head (c ∷ s) = c

-- state 1 of the loop, from index i
unfoldable pub scan_value : ℕ → CString → CString
scan_value i [] = []
scan_value i (c ∷ s) =
    let rest = scan_value (i + 1) s in if leb 1024 i || is_end c then [] else c ∷ rest

-- what ends the loop in state 0 without a line
abbrev pub is_bad : ℕ → ℕ → CString → Bool
is_bad i c s = (i == 0 && (c == 58 || c == 32)) || (c == 58 && not (head s == 32)) || ltb 63 i

-- state 0, from index i: the key up to a ':' that a space follows
unfoldable pub scan_key : ℕ → CString → CString → Option HeaderLine
unfolding scan_value
scan_key i key [] = none
scan_key i key (c ∷ s) =
    let rest = scan_key (i + 1) (key ++ c ∷ []) s in
    if is_end c
    then none
    else if is_bad i c s
    then none
    else if c == 58
    then some (record { key = key; value = scan_value (i + 2) (drop 1 s) })
    else rest

unfoldable pub parse_header_line : CString → Option HeaderLine
unfolding scan_key
parse_header_line line = scan_key 0 [] line

unfoldable pub get_header_line : List HeaderLine → CString → Option CString
get_header_line [] key = none
get_header_line (l ∷ lines) key =
    if casecmp l.key key then some l.value else get_header_line lines key

-- the string that begins at the head of some bytes
abbrev pub c_string : List ℕ → CString
c_string [] = []
c_string (b ∷ bs) = if b == 0 then [] else b ∷ c_string bs

-- strncmp(prefix, s, strlen(prefix)) == 0
abbrev pub starts_with : CString → CString → Bool
starts_with [] s = true
starts_with (c ∷ prefix) [] = false
starts_with (c ∷ prefix) (d ∷ s) = c == d && starts_with prefix s

-- The loop over the first line from index p: the index of the space, if the line has one, and
-- http->data.
unfoldable pub scan_uri : ℕ → Option ℕ → CString → Option ℕ × Option ℕ
scan_uri p query [] = (none, query)
scan_uri p query (c ∷ s) =
    let other = scan_uri (p + 1) query s in
    let marked = scan_uri (p + 1) (some (p + 1)) s in
    if c == 32
    then (some p, query)
    else if c == 63
    then if head s == 32 || head s == 13 || head s == 10 then other else marked
    else if c == 13 || c == 10
    then (none, query)
    else other

-- atoi: blanks, a sign, digits; false is a number below 0
abbrev pub is_blank : ℕ → Bool
is_blank c = c == 32 || (leb 9 c && leb c 13)

unfoldable pub digits_from : ℕ → CString → ℕ
digits_from n [] = n
digits_from n (c ∷ s) =
    let rest = digits_from (n * 10 + (c - 48)) s in if leb 48 c && leb c 57 then rest else n

unfoldable pub atoi : CString → Bool × ℕ
unfolding digits_from
atoi [] = (true, 0)
atoi (c ∷ s) =
    let rest = atoi s in
    if is_blank c
    then rest
    else if c == 43
    then (true, digits_from 0 s)
    else if c == 45
    then (digits_from 0 s == 0, digits_from 0 s)
    else (true, digits_from 0 (c ∷ s))
