-- ===== src/Json/Print.antt =====
-- The text of a tree of items: escape_json_string, json_evaluate_string_size and json_to_string of
-- src/json.c.
use ape_server.Prelude.{
  ℕ, ◌+◌, ◌*◌, Bool, true, false, Option, none, some, [], ◌∷◌, ◌++◌, ◌==◌, if◌then◌else◌, length,
  take,
}
use ape_server.Prelude.Text.{CString, codes}
use ape_server.Strings.Numbers.{magnitude, itos}
use ape_server.Json.{
  JsonType, ChildType, c_obj, c_arr, c_null, Item, Items, end, item, json_true, json_false, null,
}

-- what stands behind the backslash, for a byte that is escaped: " \ newline backspace tab form feed
-- return '
unfoldable pub escape_letter : ℕ → Option ℕ
escape_letter c =
    if c == 34
    then some 34
    else if c == 92
    then some 92
    else if c == 10
    then some b'n'
    else if c == 8
    then some b'b'
    else if c == 9
    then some b't'
    else if c == 12
    then some b'f'
    else if c == 13
    then some b'r'
    else if c == 39
    then some 39
    else none

abbrev pub escape_byte : Option ℕ → ℕ → CString → CString
escape_byte none c out = c ∷ out
escape_byte (some letter) c out = 92 ∷ letter ∷ out

unfoldable pub escape_json_string : CString → CString
unfolding escape_letter
escape_json_string [] = []
escape_json_string (c ∷ s) = escape_byte (escape_letter c) c (escape_json_string s)

abbrev pub is_end : Items → Bool
is_end end = true
is_end (item _ _ _) = false

-- the summands of an item, besides those of its children
abbrev pub key_size : Option CString → ℕ
key_size none = 0
key_size (some key) = length key + 3

abbrev pub value_size : Option CString → Items → ℕ
value_size (some s) child = length s + 3
value_size none end = 16
value_size none (item _ _ _) = 0

unfoldable pub json_evaluate_string_size : Items → ℕ
json_evaluate_string_size end = 2
json_evaluate_string_size (item i child next) =
    key_size i.key
    + value_size i.str child
    + (if is_end child then 0 else json_evaluate_string_size child)
    + json_evaluate_string_size next

-- the size of the buffer that json_to_string allocates, less the byte of its NUL
unfoldable pub jsize : Items → ℕ
unfolding json_evaluate_string_size
jsize head = json_evaluate_string_size head * 2

abbrev pub key_text : Option CString → CString
key_text none = []
key_text (some key) = 34 ∷ (key ++ 34 ∷ 58 ∷ [])

abbrev pub type_text : JsonType → Items → CString
type_text json_true child = codes "true"
type_text json_false child = codes "false"
type_text null child = codes "null"
type_text _ end = codes "0"
type_text _ (item _ _ _) = []

abbrev pub number_text : ℕ → CString → Option CString → CString → CString
number_text n digits float other =
    if n == 0 then elim float [ none ↦ other | some t ↦ take 16 t ] else digits

unfoldable pub value_text : Item → Items → CString
unfolding escape_json_string itos
value_text i child = elim i.str [
  | some s ↦ 34 ∷ (escape_json_string s ++ 34 ∷ [])
  | none ↦
      number_text (magnitude i.integer_value) (itos i.integer_value) i.float_value
        (type_text i.type child)
]

abbrev pub open_text : ChildType → CString
open_text c_obj = 123 ∷ []
open_text c_arr = 91 ∷ []
open_text c_null = []

-- behind an item with a father: a comma, or the bracket that closes the father
abbrev pub close_text : ChildType → Items → CString
close_text father (item _ _ _) = 44 ∷ []
close_text c_obj end = 125 ∷ []
close_text c_arr end = 93 ∷ []
close_text c_null end = []

abbrev pub tail_text : Option ChildType → Items → CString
tail_text none next = []
tail_text (some father) next = close_text father next

-- What is written for an item and its siblings, which have one father, of some type, or none: items
-- that json_to_string meets in a row are the children of one item, or roots without a father.
unfoldable pub json_to_string : Option ChildType → Items → CString
unfolding value_text
json_to_string father end = []
json_to_string father (item i child next) =
    key_text i.key
    ++ (value_text i child
        ++ ((if is_end child
              then []
              else open_text i.child_type ++ json_to_string (some i.child_type) child)
            ++ (tail_text father next ++ json_to_string father next)))
