-- ===== src/Json/Buffer.antt =====
-- The buffer that json_to_string allocates is large enough.
use ape_server.Prelude.{
  ℕ, suc, ◌+◌, ◌*◌, ◌≤◌, ◌<◌, ◌^◌, ◌≡◌, refl, arith, Option, none, some, [], ◌∷◌, ◌++◌, ◌==◌,
  if◌then◌else◌, length, length-append, length-take, Bool-cases, inl, inr, ap,
}
use ape_server.Prelude.Text.{CString}
use ape_server.Strings.Numbers.{ℤ, pos, negsuc, itos, magnitude, length-digits}
use ape_server.Json.{
  ChildType, c_obj, c_arr, c_null, JsonType, untyped, integer, float, null, json_true, json_false,
  string, Item, Items, end, item,
}
use ape_server.Json.Print.{
  is_end, key_size, value_size, json_evaluate_string_size, jsize, key_text, type_text, number_text,
  value_text, open_text, tail_text, json_to_string, escape_json_string,
}
use ape_server.Json.Escapes.{length-escape}

-- an item with children has no number, and is not true, false or null
abbrev IsBare : Option CString → ℕ → Option CString → JsonType → Type 0
IsBare (some s) n f type = Unit
IsBare none n (some t) type = ⊥
IsBare none n none json_true = ⊥
IsBare none n none json_false = ⊥
IsBare none n none null = ⊥
IsBare none n none type = n ≡ 0

abbrev IsFit : Items → Item → Type 0
IsFit end i = magnitude i.integer_value < 2 ^ 63
IsFit (item _ _ _) i = IsBare i.str (magnitude i.integer_value) i.float_value i.type

-- Integers have 64 bits, and an item with children has no value but a string.
unfoldable pub IsPrintable : Items → Type 0
IsPrintable end = Unit
IsPrintable (item i child next) = IsFit child i × IsPrintable child × IsPrintable next

length-itos : (z : ℤ) → magnitude z < 2 ^ 63 → length (itos z) ≤ 20
unfolding itos
length-itos (pos n) lt = omega (arith, length-digits n n 19 [] (omega (arith, lt)))
length-itos (negsuc n) lt = omega (arith, length-digits (suc n) (suc n) 19 [] (omega (arith, lt)))

length-type_text : (t : JsonType) (child : Items) → length (type_text t child) ≤ 5
length-type_text json_true child = omega arith
length-type_text json_false child = omega arith
length-type_text null child = omega arith
length-type_text untyped end = omega arith
length-type_text untyped (item _ _ _) = omega arith
length-type_text integer end = omega arith
length-type_text integer (item _ _ _) = omega arith
length-type_text float end = omega arith
length-type_text float (item _ _ _) = omega arith
length-type_text string end = omega arith
length-type_text string (item _ _ _) = omega arith

length-number_text :
    (n : ℕ) (digits : CString) (f : Option CString) (other : CString)
    → length digits ≤ 20
    → length other ≤ 5
    → length (number_text n digits f other) ≤ 20
length-number_text n digits f other ld lo = elim (Bool-cases (n == 0)) [
  | inr e ↦ rw e ld
  | inl e ↦ rw e (elim f as (λ f. length (number_text 0 digits f other) ≤ 20) [
    | none ↦ omega (arith, lo)
    | some t ↦ omega (arith, length-take 16 t)
  ])
]

length-string : (s : CString) → length (34 ∷ (escape_json_string s ++ 34 ∷ [])) ≤ 2 * length s + 2
length-string s = omega (arith, length-append (escape_json_string s) (34 ∷ []), length-escape s)

length-leaf :
    (str : Option CString) (i : Item)
    → magnitude i.integer_value < 2 ^ 63
    → length (value_text (record i { str = str }) end) + 1 ≤ 2 * value_size str end
unfolding value_text
length-leaf (some s) i lt = omega (arith, length-string s)
length-leaf none i lt = omega (
  arith,
  length-number_text (magnitude i.integer_value) (itos i.integer_value) i.float_value
      (type_text i.type end) (length-itos i.integer_value lt) (length-type_text i.type end),
)

bare-type_text :
    (n : ℕ) (written : CString) (f : Option CString) (t : JsonType) (own : Item)
    (child next : Items)
    → IsBare none n f t
    → number_text n written f (type_text t (item own child next)) ≡ []
bare-type_text n written (some _) t own child next h = absurd h
bare-type_text n written none json_true own child next h = absurd h
bare-type_text n written none json_false own child next h = absurd h
bare-type_text n written none null own child next h = absurd h
bare-type_text n written none untyped own child next h = rw h refl
bare-type_text n written none integer own child next h = rw h refl
bare-type_text n written none float own child next h = rw h refl
bare-type_text n written none string own child next h = rw h refl

length-parent :
    (str : Option CString) (i own : Item) (child next : Items)
    → IsBare str (magnitude i.integer_value) i.float_value i.type
    → length (value_text (record i { str = str }) (item own child next))
      ≤ 2 * value_size str (item own child next)
unfolding value_text
length-parent (some s) i own child next h = omega (arith, length-string s)
length-parent none i own child next h = omega (
  arith,
  ap length (
      bare-type_text (magnitude i.integer_value) (itos i.integer_value) i.float_value i.type own
        child next h),
)

length-open_text : (t : ChildType) → length (open_text t) ≤ 1
length-open_text c_obj = omega arith
length-open_text c_arr = omega arith
length-open_text c_null = omega arith

length-tail_text : (f : Option ChildType) (t : Items) → length (tail_text f t) ≤ 1
length-tail_text none t = omega arith
length-tail_text (some f) (item _ _ _) = omega arith
length-tail_text (some c_obj) end = omega arith
length-tail_text (some c_arr) end = omega arith
length-tail_text (some c_null) end = omega arith

length-key_text : (k : Option CString) → length (key_text k) ≤ key_size k
length-key_text none = omega arith
length-key_text (some k) = omega (arith, length-append k (34 ∷ 58 ∷ []))

-- an item's value with the text of its children
length-below :
    (i : Item) (child : Items) (written : CString) (size : ℕ)
    → IsFit child i
    → length written + 4 ≤ 2 * size
    → length (value_text i child)
        + length (if is_end child then [] else open_text i.child_type ++ written)
        + 1
      ≤ 2 * (value_size i.str child + (if is_end child then 0 else size))
length-below i end written size fit le = omega (arith, length-leaf i.str i fit)
length-below i (item own c n) written size fit le = omega (
  arith,
  length-parent i.str i own c n fit,
  length-append (open_text i.child_type) written,
  length-open_text i.child_type,
  le,
)

length-parts :
    (a b c d e : CString)
    → length (a ++ (b ++ (c ++ (d ++ e)))) ≡ length a + length b + length c + length d + length e
length-parts a b c d e = omega (
  arith,
  length-append a (b ++ (c ++ (d ++ e))),
  length-append b (c ++ (d ++ e)),
  length-append c (d ++ e),
  length-append d e,
)

length-json_to_string :
    (father : Option ChildType) (t : Items)
    → IsPrintable t
    → length (json_to_string father t) + 4 ≤ 2 * json_evaluate_string_size t
unfolding json_to_string json_evaluate_string_size IsPrintable
length-json_to_string father end h = omega arith
length-json_to_string father (item i child next) (fit, below, behind) = omega (
  arith,
  length-parts (key_text i.key) (value_text i child)
      (if is_end child
        then []
        else open_text i.child_type ++ json_to_string (some i.child_type) child)
      (tail_text father next) (json_to_string father next),
  length-key_text i.key,
  length-below i child (json_to_string (some i.child_type) child) (json_evaluate_string_size child)
      fit (length-json_to_string (some i.child_type) child below),
  length-tail_text father next,
  length-json_to_string father next behind,
)

-- For a tree of items whose integers have 64 bits, and in which an item with children has no value
-- but a string: json_to_string writes less than the buffer holds that it allocates for them.
pub json_to_string-IsWithin : (t : Items) → IsPrintable t → length (json_to_string none t) < jsize t
unfolding jsize
json_to_string-IsWithin t h = omega (arith, length-json_to_string none t h)
