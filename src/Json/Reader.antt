-- ===== src/Json/Reader.antt =====
-- The callback of the JSON parser, json_callback of src/json.c, which builds the tree of items from
-- the parser's events, and init_json_parser, for the events of a text that the parser accepts.
use ape_server.Prelude.{Bool, true, false, Option, none, some, List, [], ◌∷◌, if◌then◌else◌}
use ape_server.Prelude.Text.{CString}
use ape_server.Strings.Numbers.{ℤ, pos}
use ape_server.Raw.Send.{◌>>=◌}
use ape_server.Json.{
  integer, float, null, json_true, json_false, string, ChildType, c_obj, c_arr, Item, Items, end,
  init_json_item, add_last,
}

-- what the parser calls the callback with; a float of `none` is 0.
pub data Event : Type 0 where
  object_begin object_end array_begin array_end : Event
  key_event string_event : CString → Event
  integer_event : ℤ → Event
  float_event : Option CString → Event
  null_event true_event false_event : Event

-- The item that is built, the siblings before it, and its children; the items below it and behind it
-- come later.
pub record Level : Type 0 where
  pub before : Items
  pub self : Item
  pub child : Items

-- struct _json_context. The levels lead from current_cx to its father and on to the top; current_cx
-- is NULL without any.
pub record Context : Type 0 where
  pub key_under : Bool
  pub start_depth : Bool
  pub levels : List Level

abbrev pub fresh_level : Items → Level
fresh_level before = record { before = before; self = init_json_item; child = end }

abbrev pub siblings : Level → Items
siblings l = add_last l.before (record { self = l.self; child = l.child })

-- A new item becomes current_cx: the child of current_cx where a level begins, its sibling otherwise.
unfoldable pub new_item : Bool → List Level → Option (List Level)
new_item start [] = none
new_item true (l ∷ ls) = some (fresh_level end ∷ l ∷ ls)
new_item false (l ∷ ls) = some (fresh_level (siblings l) ∷ ls)

-- if (cx->current_cx != NULL) ...
unfoldable pub open_item : Bool → List Level → Option (List Level)
unfolding new_item
open_item start [] = some (fresh_level end ∷ [])
open_item start (l ∷ ls) = new_item start (l ∷ ls)

-- current_cx = current_cx->father, where there is one
unfoldable pub climb : List Level → Option (List Level)
climb [] = none
climb (l ∷ []) = some (l ∷ [])
climb (l ∷ p ∷ ls) = some (record p { child = siblings l } ∷ ls)

unfoldable pub change : (Item → Item) → List Level → Option (List Level)
change f [] = none
change f (l ∷ ls) = some (record l { self = f l.self } ∷ ls)

unfoldable pub begin_event : ChildType → Context → Option Context
unfolding open_item change
begin_event t cx = do
  opened ← if cx.key_under then some cx.levels else open_item cx.start_depth cx.levels
  levels ← change (λ i. record i { child_type = t }) opened
  some (record { key_under = false; start_depth = true; levels = levels })

unfoldable pub end_event : Context → Option Context
unfolding climb
end_event cx = elim cx.levels [
  | [] ↦ none
  | l ∷ ls ↦ do
    levels ← if cx.start_depth then some (l ∷ ls) else climb (l ∷ ls)
    some (record { key_under = false; start_depth = false; levels = levels })
]

unfoldable pub key_item : CString → Context → Option Context
unfolding new_item change
key_item k cx = do
  opened ← new_item cx.start_depth cx.levels
  levels ← change (λ i. record i { key = some k }) opened
  some (record { key_under = true; start_depth = false; levels = levels })

unfoldable pub scalar : (Item → Item) → Context → Option Context
unfolding new_item change
scalar f cx = do
  opened ← if cx.key_under then some cx.levels else new_item cx.start_depth cx.levels
  levels ← change f opened
  some (record {
    key_under = false;
    start_depth = if cx.key_under then cx.start_depth else false;
    levels = levels;
  })

unfoldable pub json_callback : Event → Context → Option Context
unfolding begin_event end_event key_item scalar
json_callback object_begin = begin_event c_obj
json_callback array_begin = begin_event c_arr
json_callback object_end = end_event
json_callback array_end = end_event
json_callback (key_event k) = key_item k
json_callback (integer_event z) = scalar λ i. record i { integer_value = z; type = integer }
json_callback (float_event t) = scalar λ i. record i { float_value = t; type = float }
json_callback null_event = scalar λ i. record i { integer_value = pos 0; type = null }
json_callback false_event = scalar λ i. record i { integer_value = pos 0; type = json_false }
json_callback true_event = scalar λ i. record i { integer_value = pos 1; type = json_true }
json_callback (string_event s) = scalar λ i. record i { str = some s; type = string }

unfoldable pub callbacks : List Event → Context → Option Context
unfolding json_callback
callbacks [] cx = some cx
callbacks (e ∷ es) cx = json_callback e cx >>= λ cx'. callbacks es cx'

-- the tree around current_cx, from the first item on
unfoldable pub tree : List Level → Items
tree [] = end
tree (l ∷ []) = siblings l
tree (l ∷ p ∷ ls) = tree (record p { child = siblings l } ∷ ls)

-- jcx.head, for the events of a text that is accepted; `none` is an access through NULL
unfoldable pub init_json_parser : List Event → Option Items
unfolding callbacks tree
init_json_parser es = do
  cx ← callbacks es (record { key_under = false; start_depth = false; levels = [] })
  some (tree cx.levels)
