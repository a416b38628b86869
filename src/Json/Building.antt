-- ===== src/Json/Building.antt =====
-- Values that are built by the calls of json_set_property_* and json_set_element_*, one call for each
-- member or element, in their order.
use ape_server.Prelude.{◌≡◌, refl, ap, sym, true, false, Option, none, some}
use ape_server.Prelude.Text.{CString}
use ape_server.Raw.Send.{◌>>=◌}
use ape_server.Json.{
  Item, Items, end, item, Node, json_new_object, json_new_array, add_child, add_last, has_child,
  json_set_property_obj_n, json_set_property_int_n, json_set_property_float_n,
  json_set_property_boolean, json_set_property_null, json_set_property_str_n,
}
use ape_server.Json.Values.{
  Value, Members, Elements, v_str, v_num, v_float, v_true, v_false, v_null, v_obj, v_arr,
  no_members, member, no_elements, element, children, member_items, element_items, self_of,
  has_head, text, IsPlainValue,
}
use ape_server.Json.Print.{json_to_string}
use ape_server.Json.Texts.{json_to_string-text}
use ape_server.Json.Joined.{join, join_assoc, add_last-join}

unfoldable mutual
  put : Option CString → Value → Node → Option Node
  put key (v_str s) obj = json_set_property_str_n obj key s
  put key (v_num z) obj = json_set_property_int_n obj key z
  put key (v_float t) obj = json_set_property_float_n obj key (some t)
  put key v_true obj = json_set_property_boolean obj key true
  put key v_false obj = json_set_property_boolean obj key false
  put key v_null obj = json_set_property_null obj key
  put key (v_obj ms) obj = put_members ms json_new_object >>= λ n. json_set_property_obj_n obj key n
  put key (v_arr es) obj = put_elements es json_new_array >>= λ n. json_set_property_obj_n obj key n

  pub put_members : Members → Node → Option Node
  put_members no_members obj = some obj
  put_members (member k v ms) obj = put (some k) v obj >>= put_members ms

  pub put_elements : Elements → Node → Option Node
  put_elements no_elements obj = some obj
  put_elements (element v es) obj = put none v obj >>= put_elements es

-- an item with further children behind its own
abbrev extend : Node → Items → Node
extend obj end = obj
extend obj (item i c next) = record {
  self = record obj.self { head = true };
  child = join obj.child (item i c next);
}

-- who has children has a head
abbrev IsOpen : Node → Type 0
IsOpen obj = has_child obj.child ≡ true → obj.self.head ≡ true

abbrev keyed : Option CString → Value → Item
keyed key v = record (self_of false v (children false v)) { key = key }

abbrev Puts : Value → Node → Option CString → Type 0
Puts v obj key = put key v obj ≡ some (extend obj (item (keyed key v) (children false v) end))

abbrev PutsValue : Value → Type 0
PutsValue v = (key : Option CString) (obj : Node) → IsOpen obj → Puts v obj key

abbrev PutsMembers : Members → Type 0
PutsMembers ms =
    (obj : Node) → IsOpen obj → put_members ms obj ≡ some (extend obj (member_items false ms))

abbrev PutsElements : Elements → Type 0
PutsElements es =
    (obj : Node) → IsOpen obj → put_elements es obj ≡ some (extend obj (element_items false es))

add_child-some :
    (obj n : Node) (c : Items)
    → (has_child c ≡ true → obj.self.head ≡ true)
    → add_child (record { self = obj.self; child = c }) n
      ≡ some (extend (record { self = obj.self; child = c }) (item n.self n.child end))
unfolding add_child join add_last
add_child-some obj n end h = refl
add_child-some obj n (item i c next) h = rw (h refl, add_last-join next n) refl

add_child-extend :
    (obj n : Node) → IsOpen obj → add_child obj n ≡ some (extend obj (item n.self n.child end))
add_child-extend obj n h = add_child-some obj n obj.child h

extend-extend :
    (obj : Node) (i : Item) (c t : Items)
    → extend (extend obj (item i c end)) t ≡ extend obj (item i c t)
unfolding join
extend-extend obj i c end = refl
extend-extend obj i c (item i' c' t) =
    ap (λ t. record { self = record obj.self { head = true }; child = t })
      (join_assoc obj.child (item i c end) (item i' c' t))

new_object :
    (t : Items)
    → extend json_new_object t
      ≡ record { self = record json_new_object.self { head = has_head false t }; child = t }
unfolding join
new_object end = refl
new_object (item i c t) = refl

new_array :
    (t : Items)
    → extend json_new_array t
      ≡ record { self = record json_new_array.self { head = has_head false t }; child = t }
unfolding join
new_array end = refl
new_array (item i c t) = refl

-- a value of its own is put below its father
put_node :
    (key : Option CString) (obj : Node) (i : Item) (t : Items)
    → IsOpen obj
    → i.key ≡ none
    → json_set_property_obj_n obj key (record { self = i; child = t })
      ≡ some (extend obj (item (record i { key = key }) t end))
unfolding json_set_property_obj_n
put_node none obj i t h e = rw (sym e) (add_child-extend obj (record { self = i; child = t }) h)
put_node (some k) obj i t h e =
    add_child-extend obj (record { self = record i { key = some k }; child = t }) h

-- one child, and those behind it
put_first :
    (first : Option Node) (rest : Node → Option Node) (obj : Node) (i : Item) (c t : Items)
    → first ≡ some (extend obj (item i c end))
    → rest (extend obj (item i c end)) ≡ some (extend (extend obj (item i c end)) t)
    → (first >>= rest) ≡ some (extend obj (item i c t))
put_first first rest obj i c t e e' = rw (e, e') (ap some (extend-extend obj i c t))

put-PutsValue : (v : Value) → PutsValue v
unfolding put children json_set_property_obj_n json_set_property_int_n json_set_property_float_n
    json_set_property_boolean json_set_property_null json_set_property_str_n
put-PutsValue v = elim v as PutsValue PutsMembers PutsElements [
  | v_str s ↦ λ key obj h. elim key as (Puts (v_str s) obj) [
    | none ↦ add_child-extend obj _ h
    | some k ↦ add_child-extend obj _ h
  ]
  | v_num z ↦ λ key obj h. elim key as (Puts (v_num z) obj) [
    | none ↦ add_child-extend obj _ h
    | some k ↦ add_child-extend obj _ h
  ]
  | v_float t ↦ λ key obj h. elim key as (Puts (v_float t) obj) [
    | none ↦ add_child-extend obj _ h
    | some k ↦ add_child-extend obj _ h
  ]
  | v_true ↦ λ key obj h. elim key as (Puts (v_true) obj) [
    | none ↦ add_child-extend obj _ h
    | some k ↦ add_child-extend obj _ h
  ]
  | v_false ↦ λ key obj h. elim key as (Puts (v_false) obj) [
    | none ↦ add_child-extend obj _ h
    | some k ↦ add_child-extend obj _ h
  ]
  | v_null ↦ λ key obj h. elim key as (Puts (v_null) obj) [
    | none ↦ add_child-extend obj _ h
    | some k ↦ add_child-extend obj _ h
  ]
  | v_obj (ms → ih) ↦ λ key obj h.
      rw (ih json_new_object λ e. cc, new_object (member_items false ms))
        (put_node key obj (self_of false (v_obj ms) (member_items false ms)) (member_items false ms)
          h refl)
  | v_arr (es → ih) ↦ λ key obj h.
      rw (ih json_new_array λ e. cc, new_array (element_items false es))
        (put_node key obj (self_of false (v_arr es) (element_items false es))
          (element_items false es) h refl)
  | no_members ↦ λ obj h. refl
  | member k (w → ih) (ms → ihs) ↦ λ obj h.
      put_first _ _ obj (keyed (some k) w) (children false w) (member_items false ms)
        (ih (some k) obj h) (ihs _ λ _. refl)
  | no_elements ↦ λ obj h. refl
  | element (w → ih) (es → ihs) ↦ λ obj h.
      put_first _ _ obj (keyed none w) (children false w) (element_items false es) (ih none obj h)
        (ihs _ λ _. refl)
]

put_members-PutsMembers : (ms : Members) → PutsMembers ms
unfolding put children
put_members-PutsMembers no_members obj h = refl
put_members-PutsMembers (member k v ms) obj h =
    put_first _ _ obj (keyed (some k) v) (children false v) (member_items false ms)
      (put-PutsValue v (some k) obj h) (put_members-PutsMembers ms _ λ _. refl)

-- For an object in which no object or array is empty and each float has at most 16
-- places: the calls that set its members one by one succeed, and json_to_string prints
-- the text of the value from what they build.
pub put_members-text :
    (ms : Members)
    → IsPlainValue false (v_obj ms)
    → (put_members ms json_new_object >>= λ n. some (json_to_string none (item n.self n.child end)))
      ≡ some (text (v_obj ms))
unfolding children
put_members-text ms plain =
    rw (put_members-PutsMembers ms json_new_object λ e. cc, new_object (member_items false ms))
      (ap some (json_to_string-text false (v_obj ms) plain))
