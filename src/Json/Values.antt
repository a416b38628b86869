-- ===== src/Json/Values.antt =====
-- JSON values, the text that the standard gives them, and the items that stand for them.
use ape_server.Prelude.{
  ◌≡◌, Bool, true, false, none, some, [], ◌∷◌, ◌++◌, if◌then◌else◌, length, ◌≤◌, ◌==◌, ℕ, suc, leb,
  not, ◌&&◌, ◌||◌,
}
use ape_server.Prelude.Text.{CString, codes}
use ape_server.Strings.Numbers.{ℤ, pos, negsuc, numeral}
use ape_server.Json.{
  JsonType, integer, float, null, json_true, json_false, string, c_obj, c_arr, Item, Items, end,
  item, Node, init_json_item,
}

-- A float is what "%f" prints of it.
mutual
  pub data Value : Type 0 where
    v_str : CString → Value
    v_num : ℤ → Value
    v_float : CString → Value
    v_true v_false v_null : Value
    v_obj : Members → Value
    v_arr : Elements → Value

  pub data Members : Type 0 where
    no_members : Members
    member : CString → Value → Members → Members

  pub data Elements : Type 0 where
    no_elements : Elements
    element : Value → Elements → Elements

abbrev pub quoted : CString → CString
quoted s = 34 ∷ (s ++ 34 ∷ [])

-- an integer in JSON
unfoldable pub decimal : ℤ → CString
unfolding numeral
decimal (pos n) = numeral n n
decimal (negsuc n) = b'-' ∷ numeral (suc n) (suc n)

-- A byte of a string in JSON: a quote, a backslash and the control characters that have a letter are
-- written with a backslash.
unfoldable pub json_byte : ℕ → CString
json_byte c =
    if c == 8
    then codes "\\b"
    else if c == 9
    then codes "\\t"
    else if c == 10
    then codes "\\n"
    else if c == 12
    then codes "\\f"
    else if c == 13
    then codes "\\r"
    else if c == 34
    then codes "\\\""
    else if c == 92
    then codes "\\\\"
    else c ∷ []

unfoldable pub escaped : CString → CString
unfolding json_byte
escaped [] = []
escaped (c ∷ s) = json_byte c ++ escaped s

-- no control character but those that have a letter, and no apostrophe
unfoldable pub is_text_byte : ℕ → Bool
is_text_byte c =
    if leb 32 c then not (c == 39) else c == 8 || c == 9 || c == 10 || c == 12 || c == 13

unfoldable pub IsText : CString → Type 0
unfolding is_text_byte
IsText [] = Unit
IsText (c ∷ s) = (is_text_byte c ≡ true) × IsText s

-- what stands for itself in a string
unfoldable pub is_key_byte : ℕ → Bool
is_key_byte c = leb 32 c && not (c == 34) && not (c == 92)

unfoldable pub IsKey : CString → Type 0
unfolding is_key_byte
IsKey [] = Unit
IsKey (c ∷ s) = (is_key_byte c ≡ true) × IsKey s

abbrev pub comma : Bool → CString
comma first = if first then [] else 44 ∷ []

-- Each member and element but the first has a comma before it.
unfoldable mutual
  pub text : Value → CString
  text (v_str s) = quoted (escaped s)
  text (v_num z) = decimal z
  text (v_float t) = t
  text v_true = codes "true"
  text v_false = codes "false"
  text v_null = codes "null"
  text (v_obj ms) = 123 ∷ members_text ms true
  text (v_arr es) = 91 ∷ elements_text es true

  pub members_text : Members → Bool → CString
  members_text no_members first = 125 ∷ []
  members_text (member k v ms) first =
      comma first ++ (quoted (escaped k) ++ (58 ∷ (text v ++ members_text ms false)))

  pub elements_text : Elements → Bool → CString
  elements_text no_elements first = 93 ∷ []
  elements_text (element v es) first = comma first ++ (text v ++ elements_text es false)

abbrev pub typed : JsonType → Item
typed t = record init_json_item { type = t }

-- Items that the parser's callback made have no head, and `true` has the integer 1 in them.
abbrev pub has_head : Bool → Items → Bool
has_head true child = false
has_head false end = false
has_head false (item _ _ _) = true

abbrev pub self_of : Bool → Value → Items → Item
self_of parsed (v_str s) child = record init_json_item { str = some s; type = string }
self_of parsed (v_num z) child = record init_json_item { integer_value = z; type = integer }
self_of parsed (v_float t) child = record init_json_item { float_value = some t; type = float }
self_of parsed v_true child = record init_json_item {
  integer_value = pos (if parsed then 1 else 0);
  type = json_true;
}
self_of parsed v_false child = typed json_false
self_of parsed v_null child = typed null
self_of parsed (v_obj ms) child = record init_json_item {
  child_type = c_obj;
  head = has_head parsed child;
}
self_of parsed (v_arr es) child = record init_json_item {
  child_type = c_arr;
  head = has_head parsed child;
}

unfoldable mutual
  pub children : Bool → Value → Items
  children parsed (v_obj ms) = member_items parsed ms
  children parsed (v_arr es) = element_items parsed es
  children parsed _ = end

  pub member_items : Bool → Members → Items
  member_items parsed no_members = end
  member_items parsed (member k v ms) =
      let child = children parsed v in
      item (record (self_of parsed v child) { key = some k }) child (member_items parsed ms)

  pub element_items : Bool → Elements → Items
  element_items parsed no_elements = end
  element_items parsed (element v es) =
      let child = children parsed v in
      item (record (self_of parsed v child) { key = none }) child (element_items parsed es)

abbrev pub node : Bool → Value → Node
node parsed v =
    let child = children parsed v in
    record { self = record (self_of parsed v child) { key = none }; child = child }

-- What json_to_string prints in JSON: no empty object or array, no `true` where it comes from the
-- parser, no float of more than 16 places, no string with an apostrophe or another control character,
-- and no key with a byte that must be escaped.
unfoldable mutual
  pub IsPlainValue : Bool → Value → Type 0
  IsPlainValue parsed (v_str s) = IsText s
  IsPlainValue parsed v_true = parsed ≡ false
  IsPlainValue parsed (v_float t) = length t ≤ 16
  IsPlainValue parsed (v_obj no_members) = ⊥
  IsPlainValue parsed (v_obj ms) = ArePlainMembers parsed ms
  IsPlainValue parsed (v_arr no_elements) = ⊥
  IsPlainValue parsed (v_arr es) = ArePlainElements parsed es
  IsPlainValue parsed _ = Unit

  pub ArePlainMembers : Bool → Members → Type 0
  ArePlainMembers parsed no_members = Unit
  ArePlainMembers parsed (member k v ms) =
      IsKey k × IsPlainValue parsed v × ArePlainMembers parsed ms

  pub ArePlainElements : Bool → Elements → Type 0
  ArePlainElements parsed no_elements = Unit
  ArePlainElements parsed (element v es) = IsPlainValue parsed v × ArePlainElements parsed es
