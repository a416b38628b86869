-- ===== src/Extend/Laws.antt =====
-- The list of properties as a map from keys.
use mathlib.Core.List.{Perm, perm_middle}
use mathlib.Core.List.Perm
use ape_server.Prelude.{
  ℕ, suc, ◌≡◌, ◌≤◌, refl, false, none, some, List, [], ◌∷◌, ◌++◌, ltb, if◌then◌else◌, length, arith,
  All, inl, inr, Bool-cases,
}
use ape_server.Prelude.Text.{CString, str_eq, eq_of_str_eq}
use ape_server.Extend.{
  Value, extend_str, extend_json, extend_pointer, Visibility, extend_isprivate, Property,
  extend_key_length, get_property, frees, del_property, shown, add_property,
}

-- how many properties have the key
unfoldable pub bearers : CString → List Property → ℕ
bearers key [] = 0
bearers key (p ∷ entry) = if str_eq p.key key then suc (bearers key entry) else bearers key entry

-- a key of at most 32 characters, and no pointer in public
abbrev pub IsShort : Property → Type 0
IsShort p = length p.key ≤ extend_key_length

abbrev pub IsGuarded : Property → Type 0
IsGuarded p = elim p.val [ extend_pointer a ↦ p.visibility ≡ extend_isprivate | _ ↦ Unit ]

-- Each key once, each key short, each pointer private.
pub record IsProperties (entry : List Property) : Type 0 where
  pub once : (key : CString) → bearers key entry ≤ 1
  pub short : All IsShort entry
  pub guarded : All IsGuarded entry

-- what the properties of a list own
unfoldable pub owned : List Property → List Value
owned [] = []
owned (p ∷ entry) = frees p.val ++ owned entry

bearers-del :
    (entry : List Property) (key q : CString)
    → bearers q (del_property entry key).0 ≤ bearers q entry
unfolding bearers del_property
bearers-del [] key q = omega arith
bearers-del (p ∷ entry) key q = ground (arith, bearers-del entry key q)

bearers-get :
    (entry : List Property) (key : CString) → get_property entry key ≡ none → bearers key entry ≡ 0
unfolding bearers get_property
bearers-get [] key h = refl
bearers-get (p ∷ entry) key h = ground (arith, bearers-get entry key)

bearers-del_same :
    (entry : List Property) (key : CString)
    → bearers key entry ≤ 1
    → bearers key (del_property entry key).0 ≡ 0
unfolding bearers del_property
bearers-del_same [] key h = refl
bearers-del_same (p ∷ entry) key h = ground (arith, bearers-del_same entry key)

All-del :
    (P : Property → Type 0) (entry : List Property) (key : CString)
    → All P entry
    → All P (del_property entry key).0
unfolding del_property
All-del P [] key h = h
All-del P (p ∷ entry) key (hp, h) = elim (Bool-cases (str_eq p.key key)) [
  | inl e ↦ rw e h
  | inr e ↦ rw e (hp, All-del P entry key h)
]

get-del_other :
    (entry : List Property) (key q : CString)
    → str_eq key q ≡ false
    → get_property (del_property entry key).0 q ≡ get_property entry q
unfolding del_property get_property
get-del_other [] key q h = refl
get-del_other (p ∷ entry) key q h = elim (Bool-cases (str_eq p.key key)) [
  | inl e ↦ let e' : str_eq p.key q ≡ false = rw (eq_of_str_eq p.key key e) h in rw (e, e')
  | inr e ↦ rw (e, get_property, get-del_other entry key q h)
]

get-bearers :
    (entry : List Property) (key : CString) → bearers key entry ≡ 0 → get_property entry key ≡ none
unfolding bearers get_property
get-bearers [] key h = refl
get-bearers (p ∷ entry) key h = ground (arith, get-bearers entry key)

-- Where each key stands once, the deleted key has no property any more and the others have theirs.
pub get-del :
    (entry : List Property) (key q : CString)
    → IsProperties entry
    → get_property (del_property entry key).0 q
      ≡ (if str_eq key q then none else get_property entry q)
get-del entry key q v = elim (Bool-cases (str_eq key q)) [
  | inl e ↦
      rw (e, ← eq_of_str_eq key q e)
        (get-bearers (del_property entry key).0 key (bearers-del_same entry key (v.once key)))
  | inr e ↦ rw e (get-del_other entry key q e)
]

-- Adding under a key of at most 32 characters gives that key the new value, with private visibility
-- for a pointer, and leaves the properties of the other keys.
pub get-add :
    (entry : List Property) (key : CString) (val : Value) (visibility : Visibility) (q : CString)
    → length key ≤ extend_key_length
    → (entry' : List Property) × (freed : List Value) × (add_property entry key val visibility
        ≡ some (entry', freed))
      × (get_property entry' q ≡ (
          if str_eq key q
          then some (record { key = key; val = val; visibility = shown val visibility })
          else get_property entry q))
unfolding add_property get_property
get-add entry key val visibility q h =
    let fits : ltb extend_key_length (length key) ≡ false = ground arith in
    (
      record { key = key; val = val; visibility = shown val visibility }
          ∷ (del_property entry key).0,
      (del_property entry key).1,
      rw fits,
      elim (Bool-cases (str_eq key q)) [
        | inl e ↦ rw e
        | inr e ↦ rw e (get-del_other entry key q e)
      ],
    )

shown-IsGuarded :
    (key : CString) (val : Value) (visibility : Visibility)
    → IsGuarded (record { key = key; val = val; visibility = shown val visibility })
shown-IsGuarded key (extend_str s) visibility = tt
shown-IsGuarded key (extend_json a) visibility = tt
shown-IsGuarded key (extend_pointer a) visibility = refl

once-add :
    (entry : List Property) (key : CString) (val : Value) (visibility : Visibility)
    → ((q : CString) → bearers q entry ≤ 1)
    → (q : CString)
    → bearers q (
        record { key = key; val = val; visibility = shown val visibility }
        ∷ (del_property entry key).0)
      ≤ 1
unfolding bearers
once-add entry key val visibility once q = elim (Bool-cases (str_eq key q)) [
  | inl e ↦ rw (e, eq_of_str_eq key q e, bearers-del_same entry q (once q)) (omega arith)
  | inr e ↦ rw e (omega (arith, bearers-del entry key q, once q))
]

perm_middles : (xs ys zs : List Value) → Perm (xs ++ (ys ++ zs)) (ys ++ (xs ++ zs))
perm_middles xs [] zs = Perm.refl _
perm_middles xs (y ∷ ys) zs =
    Perm.trans (perm_middle xs (ys ++ zs)) (Perm.cons y (perm_middles xs ys zs))

-- What is freed and what the new list owns is what the old list owned.
del_property-Perm :
    (entry : List Property) (key : CString)
    → Perm ((del_property entry key).1 ++ owned (del_property entry key).0) (owned entry)
unfolding del_property owned
del_property-Perm [] key = Perm.refl []
del_property-Perm (p ∷ entry) key = elim (Bool-cases (str_eq p.key key)) [
  | inl e ↦ rw e (Perm.refl _)
  | inr e ↦ rw e (
      Perm.trans
        (perm_middles (del_property entry key).1 (frees p.val) (owned (del_property entry key).0))
        (Perm.append_left (frees p.val) (del_property-Perm entry key)))
]

-- What an addition does to the list: each key still stands once and is short, each pointer is
-- private; and of all that the list owned and is given, each thing is freed once or owned still.
pub record IsAdded (entry : List Property) (val : Value) (entry' : List Property)
    (freed : List Value) : Type 0 where
  pub valid : IsProperties entry'
  pub accounted : Perm (freed ++ owned entry') (frees val ++ owned entry)

-- Adding under a key of at most 32 characters keeps a list where each key stands once, no key is
-- longer and no pointer is public, and everything that the list owned or is given is freed once
-- or owned still.
pub add_property-IsAdded :
    (entry : List Property) (key : CString) (val : Value) (visibility : Visibility)
    → IsProperties entry
    → length key ≤ extend_key_length
    → (entry' : List Property) × (freed : List Value) × (add_property entry key val visibility
        ≡ some (entry', freed))
      × IsAdded entry val entry' freed
unfolding add_property owned
add_property-IsAdded entry key val visibility v h =
    let fits : ltb extend_key_length (length key) ≡ false = ground arith in
    let left = del_property entry key in
    (
      record { key = key; val = val; visibility = shown val visibility } ∷ left.0,
      left.1,
      rw fits,
      record {
        valid = record {
          once = once-add entry key val visibility v.once;
          short = (h, All-del IsShort entry key v.short);
          guarded = (shown-IsGuarded key val visibility, All-del IsGuarded entry key v.guarded);
        };
        accounted =
            Perm.trans (perm_middles left.1 (frees val) (owned left.0))
              (Perm.append_left (frees val) (del_property-Perm entry key));
      },
    )
