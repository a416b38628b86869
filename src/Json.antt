-- ===== src/Json.antt =====
-- src/json.c: trees of JSON items, how they are built, copied, searched and printed. A `json_item *`
-- is the siblings from that item on. A NUL cannot stand in a key or a string that the code makes
-- from a C string; where lengths are stored, the bytes are those of the length.
pub mod Print
pub mod Values
pub mod Reader
pub mod Texts
pub mod Buffer
pub mod Escapes
pub mod Copies
mod Joined
pub mod Reading
pub mod Building
use ape_server.Prelude.{
  ℕ, ◌+◌, ◌*◌, ◌≡◌, Bool, true, false, Option, none, some, List, [], ◌∷◌, ◌++◌, ◌==◌, if◌then◌else◌,
  length, take,
}
use ape_server.Prelude.Text.{CString, codes, casecmp}
use ape_server.Strings.Numbers.{ℤ, pos, negsuc, magnitude, itos}
use ape_server.Strings.Split.{explode}
use ape_server.Raw.Send.{◌>>=◌}

-- JSON_T_INTEGER and the others; `untyped` is -1
pub data JsonType : Type 0 where
  untyped integer float null json_true json_false string : JsonType

-- JSON_C_T_OBJ, JSON_C_T_ARR and JSON_C_T_NULL; no code sets JSON_C_T_VAL
pub data ChildType : Type 0 where
  c_obj c_arr c_null : ChildType

-- struct _json_item less its pointers. `none` is NULL in a key and a string, and 0. in a float; a
-- float that is not 0. is what "%f" prints of it. `head` says that jchild.head is not NULL.
pub record Item : Type 0 where
  pub key : Option CString
  pub str : Option CString
  pub integer_value : ℤ
  pub float_value : Option CString
  pub type : JsonType
  pub child_type : ChildType
  pub head : Bool

-- an item with its children and the siblings behind it; `end` is NULL
pub data Items : Type 0 where
  end : Items
  item : Item → Items → Items → Items

-- an item that has no siblings, with its children
pub record Node : Type 0 where
  pub self : Item
  pub child : Items

abbrev pub init_json_item : Item
init_json_item = record {
  key = none;
  str = none;
  integer_value = pos 0;
  float_value = none;
  type = untyped;
  child_type = c_null;
  head = false;
}

abbrev pub json_new_object : Node
json_new_object = record { self = record init_json_item { child_type = c_obj }; child = end }

abbrev pub json_new_array : Node
json_new_array = record { self = record init_json_item { child_type = c_arr }; child = end }

-- head->next = new_item, where head is the last child
unfoldable pub add_last : Items → Node → Items
add_last end n = item n.self n.child end
add_last (item i child next) n = item i child (add_last next n)

-- The new item becomes the last child; an item with children and no head is an access through NULL.
unfoldable pub add_child : Node → Node → Option Node
unfolding add_last
add_child obj n = elim obj.child [
  | end ↦ some (record { self = record obj.self { head = true }; child = item n.self n.child end })
  | item _ _ _ ↦
      if obj.self.head
      then some (record { self = obj.self; child = add_last obj.child n })
      else none
]

abbrev leaf : Item → Node
leaf i = record { self = i; child = end }

-- if (key != NULL) ...
abbrev pub with_key : Option CString → Item → Item
with_key none i = i
with_key (some key) i = record i { key = some key }

module _ (obj : Node) (key : Option CString) where
  unfoldable pub json_set_property_obj_n : Node → Option Node
  unfolding add_child
  json_set_property_obj_n value =
      add_child obj (record { self = with_key key value.self; child = value.child })

  unfoldable pub json_set_property_int_n : ℤ → Option Node
  unfolding add_child
  json_set_property_int_n value =
      let i = with_key key init_json_item in
      add_child obj (leaf (record i { integer_value = value; type = integer }))

  unfoldable pub json_set_property_float_n : Option CString → Option Node
  unfolding add_child
  json_set_property_float_n value =
      let i = with_key key init_json_item in
      add_child obj (leaf (record i { float_value = value; type = float }))

  unfoldable pub json_set_property_boolean : Bool → Option Node
  unfolding add_child
  json_set_property_boolean value =
      let i = with_key key init_json_item in
      add_child obj (leaf (record i { type = if value then json_true else json_false }))

  unfoldable pub json_set_property_null : Option Node
  unfolding add_child
  json_set_property_null =
      add_child obj (leaf (record (with_key key init_json_item) { type = null }))

  unfoldable pub json_set_property_str_n : CString → Option Node
  unfolding add_child
  json_set_property_str_n value =
      let i = with_key key init_json_item in
      add_child obj (leaf (record i { str = some value; type = string }))

-- Of the number, json_item_copy copies the integer unless there is a string, and the float unless
-- there is a string or an integer that is not 0.
abbrev pub copied_integer : Item → ℤ
copied_integer i = elim i.str [ some s ↦ pos 0 | none ↦ i.integer_value ]

abbrev pub copied_float : Item → Option CString
copied_float i = elim i.str [
  | some s ↦ none
  | none ↦ if magnitude i.integer_value == 0 then i.float_value else none
]

abbrev pub has_child : Items → Bool
has_child end = false
has_child (item _ _ _) = true

-- json_item_copy(cx, NULL), as all callers call it. The father of an item is the one whose child it is,
-- so that its type is the parameter of json_to_string; the roots of a copy have none.
unfoldable pub json_item_copy : Items → Items
json_item_copy end = end
json_item_copy (item i child next) =
    item
      (record i {
        integer_value = copied_integer i;
        float_value = copied_float i;
        head = has_child child;
      })
      (json_item_copy child) (json_item_copy next)

-- the items that a path leads to: the children of the last item found, or that item where it has none
abbrev pub found : Items → Items → Items
found end here = here
found (item i child next) here = item i child next

-- The loop of json_lookup over split[i] to split[nTok]. A sibling that matches is entered, and the
-- search does not return from it.
unfoldable pub json_search : List CString → Items → Items
json_search [] head = end
json_search (name ∷ names) end = end
json_search (name ∷ names) (item i child next) = elim (matches name i.key) [
  | true ↦ elim names [ [] ↦ found child (item i child next) | _ ∷ _ ↦ json_search names child ]
  | false ↦ json_search (name ∷ names) next
]
  where
    matches : CString → Option CString → Bool
    matches name none = false
    matches name (some key) = casecmp name key

unfoldable pub json_lookup : Items → CString → Items
unfolding json_search explode
json_lookup head path = json_search (explode b'.' path 15) head
