-- ===== src/Json/Copies.antt =====
-- A copy of a tree of items prints like the tree, but for what stands between its roots, which have no
-- father in the copy.
use ape_server.Prelude.{
  ◌≡◌, refl, ap, ap₂, List, [], ◌∷◌, ◌∙◌, Bool-cases, Bool, ℕ, inl, inr, ◌==◌, Option, none, some,
  if◌then◌else◌,
}
use ape_server.Strings.Numbers.{itos, magnitude}
use ape_server.Json.{
  ChildType, Item, Items, end, item, json_item_copy, copied_integer, copied_float, has_child,
  JsonType, untyped, integer, float, null, json_true, json_false, string,
}
use ape_server.Json.Print.{is_end, value_text, tail_text, json_to_string, type_text, number_text}
use ape_server.Prelude.Text.{CString}

is_end-copy : (t : Items) → is_end (json_item_copy t) ≡ is_end t
unfolding json_item_copy
is_end-copy end = refl
is_end-copy (item i c n) = refl

tail_text-copy : (f : Option ChildType) (t : Items) → tail_text f (json_item_copy t) ≡ tail_text f t
unfolding json_item_copy
tail_text-copy none t = refl
tail_text-copy (some f) end = refl
tail_text-copy (some f) (item i c n) = refl

-- The number is printed from what is copied of it.
number_text-copy :
    (n : ℕ) (written : CString) (f : Option CString) (other : CString)
    → number_text n written (if n == 0 then f else none) other ≡ number_text n written f other
number_text-copy n written f other = elim (Bool-cases (n == 0)) [
  | inl e ↦ rw e refl
  | inr e ↦ rw e refl
]

type_text-copy : (ty : JsonType) (t : Items) → type_text ty (json_item_copy t) ≡ type_text ty t
unfolding json_item_copy
type_text-copy json_true t = refl
type_text-copy json_false t = refl
type_text-copy null t = refl
type_text-copy untyped end = refl
type_text-copy untyped (item i c n) = refl
type_text-copy integer end = refl
type_text-copy integer (item i c n) = refl
type_text-copy float end = refl
type_text-copy float (item i c n) = refl
type_text-copy string end = refl
type_text-copy string (item i c n) = refl

abbrev copied : Item → Bool → Item
copied i h = record i { integer_value = copied_integer i; float_value = copied_float i; head = h }

value_text-copy :
    (str : Option CString) (i : Item) (h : Bool) (t : Items)
    → value_text (copied (record i { str = str }) h) (json_item_copy t)
      ≡ value_text (record i { str = str }) t
unfolding value_text
value_text-copy (some s) i h t = refl
value_text-copy none i h t =
    let n = magnitude i.integer_value in
    let written = itos i.integer_value in
    number_text-copy n written i.float_value (type_text i.type (json_item_copy t))
    ∙ ap (number_text n written i.float_value) (type_text-copy i.type t)

-- A copy prints like the items that are copied, below fathers of the same type.
pub json_to_string-copy :
    (father : Option ChildType) (t : Items)
    → json_to_string father (json_item_copy t) ≡ json_to_string father t
unfolding json_item_copy json_to_string
json_to_string-copy father end = refl
json_to_string-copy father (item i c n) =
    rw
      (
        value_text-copy i.str i (has_child c) c,
        is_end-copy c,
        json_to_string-copy (some i.child_type) c,
        tail_text-copy father n,
        json_to_string-copy father n,
      )
      refl

-- what each of some siblings prints by itself, with no father and no sibling behind it
unfoldable pub each_text : Items → List CString
unfolding json_to_string
each_text end = []
each_text (item i child next) = json_to_string none (item i child end) ∷ each_text next

-- A copy has as many siblings, and each prints by itself like the one that it is of.
pub each_text-copy : (t : Items) → each_text (json_item_copy t) ≡ each_text t
unfolding each_text json_item_copy
each_text-copy end = refl
each_text-copy (item i c n) = ap₂ (◌∷◌) (json_to_string-copy none (item i c end)) (each_text-copy n)
