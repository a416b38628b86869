-- ===== src/Json/Escapes.antt =====
-- A string of JSON is read back from its escapes.
use ape_server.Prelude.{
  ℕ, Bool, ◌*◌, ◌≤◌, ◌≡◌, refl, arith, Option, none, some, [], ◌∷◌, ◌++◌, ◌==◌, length,
  if◌then◌else◌, true, false, zero, suc, ◌+◌, ◌/◌, ◌%◌, Bool-cases, inl, inr, ltb,
}
use ape_server.Prelude.Text.{CString}
use ape_server.Json.Print.{escape_letter, escape_json_string}
use ape_server.Strings.Numbers.{pos, numeral}
use ape_server.Json.Values.{decimal, escaped, json_byte, is_text_byte, IsText, is_key_byte, IsKey}
use ape_server.Raw.Send.{◌>>=◌}

-- The code escapes as JSON does, but for apostrophes, which have no escape there.
pub escape-escaped : (s : CString) → IsText s → escape_json_string s ≡ escaped s
unfolding escape_json_string escape_letter escaped json_byte IsText is_text_byte
escape-escaped [] plain = refl
escape-escaped (c ∷ s) (byte, plain) = ground (arith, byte, escape-escaped s plain)

-- A key that needs no escape is as JSON writes it.
pub escaped-key : (s : CString) → IsKey s → escaped s ≡ s
unfolding escaped json_byte IsKey is_key_byte
escaped-key [] plain = refl
escaped-key (c ∷ s) (byte, plain) = ground (arith, byte, escaped-key s plain)

-- The byte that a letter behind a backslash stands for in JSON, without `u` and its four digits.
unfoldable pub unescape_letter : ℕ → Option ℕ
unescape_letter c =
    if c == b'n'
    then some 10
    else if c == b'b'
    then some 8
    else if c == b't'
    then some 9
    else if c == b'f'
    then some 12
    else if c == b'r'
    then some 13
    else if c == 34
    then some 34
    else if c == 92
    then some 92
    else if c == 47
    then some 47
    else none

abbrev after : ℕ → CString × CString → Option (CString × CString)
after c (s, rest) = some (c ∷ s, rest)

-- A string of JSON that ends at a quote, with what stands behind the quote; `none` where it does not
-- end, or has an escape that is none, an apostrophe's one too, or a control character. The flag says
-- that a backslash is read.
unfoldable pub read_from : Bool → CString → Option (CString × CString)
unfolding unescape_letter
read_from backslash [] = none
read_from true (c ∷ s) = let rest = read_from false s in unescape_letter c >>= λ b. rest >>= after b
read_from false (c ∷ s) =
    let plain = read_from false s in
    let escaped = read_from true s in
    if c == 34
    then some ([], s)
    else if c == 92
    then escaped
    else if ltb c 32
    then none
    else plain >>= after c

unfoldable pub read_string : CString → Option (CString × CString)
unfolding read_from
read_string s = read_from false s

-- For a string without apostrophes, and without control characters that have no letter in JSON: what
-- is escaped between two quotes is read back as a string of JSON, and the reading stops at the
-- closing quote.
pub read_string-escape :
    (s rest : CString) → IsText s → read_string (escape_json_string s ++ 34 ∷ rest) ≡ some (s, rest)
unfolding read_string read_from escape_json_string escape_letter unescape_letter IsText is_text_byte
read_string-escape [] rest plain = refl
read_string-escape (c ∷ s) rest (byte, plain) =
    ground (arith, byte, read_string-escape s rest plain)

-- An escaped string takes at most twice the room.
pub length-escape : (s : CString) → length (escape_json_string s) ≤ 2 * length s
unfolding escape_json_string escape_letter
length-escape [] = omega arith
length-escape (c ∷ s) = ground (arith, length-escape s)

digit-IsText : (f n : ℕ) → n ≤ f → IsText (numeral f n)
unfolding numeral IsText is_text_byte
digit-IsText zero n le = (ground (arith, le), tt)
digit-IsText (suc f) n le = elim (Bool-cases (ltb n 10)) [
  | inl one ↦ rw one (ground (arith, one), tt)
  | inr more ↦ rw more (
      IsText-append (numeral f (n / 10)) (n % 10)
        (digit-IsText f (n / 10) (ground (arith, le, more))) (ground arith))
]
  where
    IsText-append :
        (s : CString) (d : ℕ)
        → IsText s
        → is_text_byte (b'0' + d) ≡ true
        → IsText (s ++ (b'0' + d) ∷ [])
    IsText-append [] d p e = (e, tt)
    IsText-append (c ∷ s) d (b, p) e = (b, IsText-append s d p e)

-- A number is a text.
pub decimal-IsText : (n : ℕ) → IsText (decimal (pos n))
unfolding decimal
decimal-IsText n = digit-IsText n n (omega arith)
