-- ===== src/Json/Reading.antt =====
-- The items that json_callback builds stand for the value whose events it is given.
use ape_server.Prelude.{
  ◌≡◌, refl, ap, ◌∙◌, Bool-cases, inl, inr, Bool, true, false, Option, none, some, List, [], ◌∷◌,
  if◌then◌else◌,
}
use ape_server.Prelude.Text.{CString}
use ape_server.Raw.Send.{◌>>=◌}
use ape_server.Json.{ChildType, c_obj, c_arr, Item, Items, end, item, init_json_item, add_last}
use ape_server.Json.Values.{
  Value, Members, Elements, v_str, v_num, v_float, v_true, v_false, v_null, v_obj, v_arr,
  no_members, member, no_elements, element, children, member_items, element_items, self_of, node,
}
use ape_server.Json.Reader.{
  Event, object_begin, object_end, array_begin, array_end, key_event, string_event, integer_event,
  float_event, null_event, true_event, false_event, Level, Context, new_item, open_item, siblings,
  json_callback, callbacks, tree, init_json_parser, begin_event, end_event, key_item, scalar,
  change, climb,
}
use ape_server.Json.Joined.{join, join-add_last, join-end}

-- the events of a value, before others
unfoldable mutual
  pub events : Value → List Event → List Event
  events (v_str s) rest = string_event s ∷ rest
  events (v_num z) rest = integer_event z ∷ rest
  events (v_float t) rest = float_event (some t) ∷ rest
  events v_true rest = true_event ∷ rest
  events v_false rest = false_event ∷ rest
  events v_null rest = null_event ∷ rest
  events (v_obj ms) rest = object_begin ∷ member_events ms (object_end ∷ rest)
  events (v_arr es) rest = array_begin ∷ element_events es (array_end ∷ rest)

  member_events : Members → List Event → List Event
  member_events no_members rest = rest
  member_events (member k v ms) rest = key_event k ∷ events v (member_events ms rest)

  element_events : Elements → List Event → List Event
  element_events no_elements rest = rest
  element_events (element v es) rest = events v (element_events es rest)

abbrev at : Bool → List Level → Context
at start ls = record { key_under = false; start_depth = start; levels = ls }

abbrev level : Items → Item → Items → Level
level before self child = record { before = before; self = self; child = child }

-- the levels once the item of the next value is there
abbrev opened : Context → Option (List Level)
opened cx = if cx.key_under then some cx.levels else new_item cx.start_depth cx.levels

abbrev depth_after : Context → Bool
depth_after cx = if cx.key_under then cx.start_depth else false

abbrev self : Option CString → Value → Item
self key v = record (self_of true v (children true v)) { key = key }

abbrev blank : Option CString → Item
blank key = record init_json_item { key = key }

abbrev BuildsValue : Value → Type 0
BuildsValue v =
    (key : Option CString) (cx : Context) (b : Items) (ls : List Level) (rest : List Event)
    → opened cx ≡ some (level b (blank key) end ∷ ls)
    → depth_after cx ≡ false
    → callbacks (events v rest) cx
      ≡ callbacks rest (at false (level b (self key v) (children true v) ∷ ls))

-- the children of the item p, up to the event that ends them: all of them, and those behind m
abbrev Builds : Items → (List Event → List Event) → Type 0
Builds items es =
    ((b : Items) (i : Item) (ls : List Level) (rest : List Event)
      → callbacks (es rest) (at true (level b i end ∷ ls))
        ≡ callbacks rest (at false (level b i items ∷ ls)))
    × ((m p : Level) (ls : List Level) (rest : List Event)
        → callbacks (es rest) (at false (m ∷ p ∷ ls))
          ≡ callbacks rest (at false (record p { child = join (siblings m) items } ∷ ls)))

abbrev BuildsMembers : Members → Type 0
BuildsMembers ms = Builds (member_items true ms) λ rest. member_events ms (object_end ∷ rest)

abbrev BuildsElements : Elements → Type 0
BuildsElements es = Builds (element_items true es) λ rest. element_events es (array_end ∷ rest)

open_item-new :
    (start : Bool) (levels ls : List Level)
    → new_item start levels ≡ some ls
    → open_item start levels ≡ some ls
unfolding new_item open_item
open_item-new start [] ls e = cc
open_item-new start (l ∷ levels) ls e = e

open_item-opened :
    (cx : Context) (ls : List Level)
    → opened cx ≡ some ls
    → (if cx.key_under then some cx.levels else open_item cx.start_depth cx.levels) ≡ some ls
open_item-opened cx ls e = elim (Bool-cases cx.key_under) [
  | inl k ↦ rw k (rw k at e)
  | inr k ↦ rw k (open_item-new cx.start_depth cx.levels ls (rw k at e))
]

module _ (cx : Context) (b : Items) (i : Item) (ls : List Level) where
  scalar-built :
      (f : Item → Item)
      → opened cx ≡ some (level b i end ∷ ls)
      → depth_after cx ≡ false
      → scalar f cx ≡ some (at false (level b (f i) end ∷ ls))
  unfolding scalar change
  scalar-built f e d = rw (e, d) refl

  begin_event-built :
      (t : ChildType)
      → opened cx ≡ some (level b i end ∷ ls)
      → begin_event t cx ≡ some (at true (level b (record i { child_type = t }) end ∷ ls))
  unfolding begin_event change
  begin_event-built t e = rw (open_item-opened cx (level b i end ∷ ls) e) refl

module _ (m p : Level) (ls : List Level) (rest : List Event) where
  -- the last child
  last-join :
      callbacks rest (at false (record p { child = siblings m } ∷ ls))
      ≡ callbacks rest (at false (record p { child = join (siblings m) end } ∷ ls))
  last-join = rw (join-end (siblings m)) refl

  -- a child and those behind it
  child-join :
      (i : Item) (c items : Items)
      → callbacks rest
          (at false (record p { child = join (siblings (level (siblings m) i c)) items } ∷ ls))
        ≡ callbacks rest (at false (record p { child = join (siblings m) (item i c items) } ∷ ls))
  child-join i c items = rw (join-add_last (siblings m) (record { self = i; child = c }) items) refl

build : (v : Value) → BuildsValue v
unfolding events callbacks children json_callback key_item new_item change join add_last end_event
    climb
build v = elim v as BuildsValue BuildsMembers BuildsElements [
  | v_str s ↦ λ key cx b ls rest e d. rw (scalar-built cx b (blank key) ls _ e d) refl
  | v_num z ↦ λ key cx b ls rest e d. rw (scalar-built cx b (blank key) ls _ e d) refl
  | v_float t ↦ λ key cx b ls rest e d. rw (scalar-built cx b (blank key) ls _ e d) refl
  | v_true ↦ λ key cx b ls rest e d. rw (scalar-built cx b (blank key) ls _ e d) refl
  | v_false ↦ λ key cx b ls rest e d. rw (scalar-built cx b (blank key) ls _ e d) refl
  | v_null ↦ λ key cx b ls rest e d. rw (scalar-built cx b (blank key) ls _ e d) refl
  | v_obj (ms → ih) ↦ λ key cx b ls rest e d.
      rw (begin_event-built cx b (blank key) ls c_obj e) (ih.0 b (self key (v_obj ms)) ls rest)
  | v_arr (es → ih) ↦ λ key cx b ls rest e d.
      rw (begin_event-built cx b (blank key) ls c_arr e) (ih.0 b (self key (v_arr es)) ls rest)
  | no_members ↦ (λ b i ls rest. refl, λ m p ls rest. last-join m p ls rest)
  | member k (w → ih) (ms → ihs) ↦ (
    λ b i ls rest.
        ih (some k) _ end (level b i end ∷ ls) _ refl refl
        ∙ ihs.1 (level end (self (some k) w) (children true w)) (level b i end) ls rest,
    λ m p ls rest.
        ih (some k) _ (siblings m) (p ∷ ls) _ refl refl
        ∙ ihs.1 (level (siblings m) (self (some k) w) (children true w)) p ls rest
        ∙ child-join m p ls rest (self (some k) w) (children true w) (member_items true ms),
  )
  | no_elements ↦ (λ b i ls rest. refl, λ m p ls rest. last-join m p ls rest)
  | element (w → ih) (es → ihs) ↦ (
    λ b i ls rest.
        ih none _ end (level b i end ∷ ls) _ refl refl
        ∙ ihs.1 (level end (self none w) (children true w)) (level b i end) ls rest,
    λ m p ls rest.
        ih none _ (siblings m) (p ∷ ls) _ refl refl
        ∙ ihs.1 (level (siblings m) (self none w) (children true w)) p ls rest
        ∙ child-join m p ls rest (self none w) (children true w) (element_items true es),
  )
]

-- an object or an array
unfoldable pub IsCompound : Value → Type 0
IsCompound (v_obj ms) = Unit
IsCompound (v_arr es) = Unit
IsCompound _ = ⊥

abbrev keyed : Context
keyed = record { key_under = true; start_depth = false; levels = level end (blank none) end ∷ [] }

-- For an object or an array, whatever it holds: what init_json_parser builds from its events is one
-- item without a key, with an item for each member or element below it, in their order.
pub init_json_parser-node :
    (v : Value)
    → IsCompound v
    → init_json_parser (events v []) ≡ some (item (node true v).self (node true v).child end)
unfolding init_json_parser events children callbacks json_callback begin_event open_item change tree
    IsCompound add_last
init_json_parser-node (v_obj ms) h =
    ap (λ o. o >>= λ cx. some (tree cx.levels)) (build (v_obj ms) none keyed end [] [] refl refl)
init_json_parser-node (v_arr es) h =
    ap (λ o. o >>= λ cx. some (tree cx.levels)) (build (v_arr es) none keyed end [] [] refl refl)
init_json_parser-node (v_str _) h = elim h [ ]
init_json_parser-node (v_num _) h = elim h [ ]
init_json_parser-node (v_float _) h = elim h [ ]
init_json_parser-node v_true h = elim h [ ]
init_json_parser-node v_false h = elim h [ ]
init_json_parser-node v_null h = elim h [ ]
