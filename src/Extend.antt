-- ===== src/Extend.antt =====
-- src/extend.c and src/extend.h: the properties of a user, a connection, a channel or a proxy, a list
-- of keys with their values, the newest first.

pub mod Laws
use ape_server.Prelude.{
  ℕ, ◌≡◌, refl, Bool, true, false, Option, none, some, List, [], ◌∷◌, ◌++◌, ltb, if◌then◌else◌,
  length,
}
use ape_server.Prelude.Text.{CString, str_eq}

-- `val` with EXTEND_TYPE: a copy of a string, a JSON tree that the property owns, by its address,
-- or the address of something that it does not own
pub data Value : Type 0 where
  extend_str : CString → Value
  extend_json : ℕ → Value
  extend_pointer : ℕ → Value

pub data Visibility : Type 0 where
  extend_ispublic extend_isprivate : Visibility

pub record Property : Type 0 where
  pub key : CString
  pub val : Value
  pub visibility : Visibility

abbrev pub extend_key_length : ℕ
extend_key_length = 32

unfoldable pub get_property : List Property → CString → Option Property
get_property [] key = none
get_property (p ∷ entry) key = if str_eq p.key key then some p else get_property entry key

unfoldable pub get_property_val : List Property → CString → Option Value
unfolding get_property
get_property_val entry key = elim (get_property entry key) [ none ↦ none | some p ↦ some p.val ]

-- what free(val) or free_json_item(val) is called on when a property goes
abbrev pub frees : Value → List Value
frees (extend_pointer p) = []
frees val = val ∷ []

-- The properties that are left, and what is freed.
unfoldable pub del_property : List Property → CString → List Property × List Value
del_property [] key = ([], [])
del_property (p ∷ entry) key =
    let (left, freed) = del_property entry key in
    if str_eq p.key key then (entry, frees p.val) else (p ∷ left, freed)

unfoldable pub clear_properties : List Property → List Property × List Value
clear_properties [] = ([], [])
clear_properties (p ∷ entry) = frees_also (frees p.val) (clear_properties entry)
  where
    frees_also : List Value → List Property × List Value → List Property × List Value
    frees_also vs (left, freed) = (left, vs ++ freed)

-- a pointer is always private
abbrev pub shown : Value → Visibility → Visibility
shown (extend_pointer p) visibility = extend_isprivate
shown val visibility = visibility

unfoldable pub add_property :
    List Property → CString → Value → Visibility → Option (List Property × List Value)
unfolding del_property
add_property entry key val visibility =
    if ltb extend_key_length (length key)
    then none
    else (let (left, freed) = del_property entry key in
        some (record { key = key; val = val; visibility = shown val visibility } ∷ left, freed))
