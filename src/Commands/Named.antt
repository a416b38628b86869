-- ===== src/Commands/Named.antt =====
-- What a command of a request names: the strings of its members.
use ape_server.Prelude.{
  ◌≡◌, refl, Bool, Option, none, some, [], ◌∷◌, if◌then◌else◌, count, Bool-cases, inl, inr,
}
use ape_server.Prelude.Text.{CString, casecmp}
use ape_server.Strings.Split.{explode-whole}
use ape_server.Json.{Item, found, Items, item, json_search, json_lookup}
use ape_server.Json.Values.{
  Value, Members, v_str, v_num, v_float, v_true, v_false, v_null, v_obj, v_arr, no_members, member,
  no_elements, element, children, member_items, self_of,
}
use ape_server.Commands.Call.{json_str}

abbrev own_str : Value → Option CString
own_str (v_str s) = some s
own_str _ = none

-- the string of a value, or of the first thing in it
abbrev str_value : Value → Option CString
str_value (v_obj (member k v ms)) = own_str v
str_value (v_arr (element v es)) = own_str v
str_value v = own_str v

-- the string of the first member that has the name up to case
unfoldable pub named : CString → Members → Option CString
named name no_members = none
named name (member k v ms) = if casecmp name k then str_value v else named name ms

self_of-str : (parsed : Bool) (v : Value) (child : Items) → (self_of parsed v child).str ≡ own_str v
self_of-str parsed (v_str _) child = refl
self_of-str parsed (v_num _) child = refl
self_of-str parsed (v_float _) child = refl
self_of-str parsed v_true child = refl
self_of-str parsed v_false child = refl
self_of-str parsed v_null child = refl
self_of-str parsed (v_obj _) child = refl
self_of-str parsed (v_arr _) child = refl

found-str :
    (parsed : Bool) (v : Value) (i : Item) (next : Items)
    → i.str ≡ own_str v
    → json_str (found (children parsed v) (item i (children parsed v) next)) ≡ str_value v
unfolding children json_str
found-str parsed (v_str _) i next e = e
found-str parsed (v_num _) i next e = e
found-str parsed (v_float _) i next e = e
found-str parsed v_true i next e = e
found-str parsed v_false i next e = e
found-str parsed v_null i next e = e
found-str parsed (v_obj no_members) i next e = e
found-str parsed (v_obj (member k v ms)) i next e = self_of-str parsed v (children parsed v)
found-str parsed (v_arr no_elements) i next e = e
found-str parsed (v_arr (element v es)) i next e = self_of-str parsed v (children parsed v)

json_search-named :
    (parsed : Bool) (name : CString) (ms : Members)
    → json_str (json_search (name ∷ []) (member_items parsed ms)) ≡ named name ms
unfolding json_search named children json_str
json_search-named parsed name no_members = refl
json_search-named parsed name (member k v ms) = elim (Bool-cases (casecmp name k)) [
  | inl e ↦
      rw (json_search, e)
        (found-str parsed v (record (self_of parsed v (children parsed v)) { key = some k })
          (member_items parsed ms) (self_of-str parsed v (children parsed v)))
  | inr e ↦ rw (json_search, e) (json_search-named parsed name ms)
]

-- A name without a dot, looked up in the items of an object, leads to the string of the first member
-- of that name up to case, or of what stands first in that member, and to NULL where there is none.
pub json_lookup-named :
    (parsed : Bool) (name : CString) (ms : Members)
    → count b'.' name ≡ 0
    → json_str (json_lookup (member_items parsed ms) name) ≡ named name ms
unfolding json_lookup
json_lookup-named parsed name ms plain =
    rw (explode-whole b'.' 15 name plain) (json_search-named parsed name ms)
