-- ===== src/Hash/Chain.antt =====
-- The chain of one bucket of src/hash.c.
use ape_server.Prelude.{
  ℕ, ◌+◌, ◌≤◌, ◌≡◌, refl, true, Option, none, some, List, [], ◌∷◌, map, arith, if◌then◌else◌,
  one_if, count, is_some, ◌==◌,
}
use ape_server.Prelude.Text.{CString, casecmp, casecmp_congr_left, casecmp_congr_right}

pub record Item {ℓ} (V : Type ℓ) : Type ℓ where
  pub addr : ℕ
  pub key : CString
  pub addrs : V

abbrev pub Bucket {ℓ} : Type ℓ → Type ℓ
Bucket V = List (Item V)

module _ {ℓ} {V : Type ℓ} where
  -- the first item with the key, up to case
  unfoldable pub find : CString → Bucket V → Option (Item V)
  find key [] = none
  find key (item ∷ c) = if casecmp item.key key then some item else find key c

  -- `hDbl->addrs = structaddr` at the first item with the key
  unfoldable pub assign : CString → V → Bucket V → Bucket V
  assign key v [] = []
  assign key v (item ∷ c) =
      if casecmp item.key key then record item { addrs = v } ∷ c else item ∷ assign key v c

  -- the first item with the key is unlinked
  unfoldable pub erase : CString → Bucket V → Bucket V
  erase key [] = []
  erase key (item ∷ c) = if casecmp item.key key then c else item ∷ erase key c

  abbrev pub addresses : Bucket V → List ℕ
  addresses c = map (λ item. item.addr) c

  -- how many items have the key
  unfoldable pub hits : CString → Bucket V → ℕ
  hits key [] = 0
  hits key (item ∷ c) = one_if (casecmp item.key key) + hits key c

  pub find-eq-none : (key : CString) (c : Bucket V) → hits key c ≡ 0 → find key c ≡ none
  unfolding find hits
  find-eq-none key [] h = refl
  find-eq-none key (item ∷ c) h = ground (arith, find-eq-none key c)

  pub hits-eq-zero :
      (key q : CString) (c : Bucket V) → find key c ≡ none → casecmp key q ≡ true → hits q c ≡ 0
  unfolding find hits
  hits-eq-zero key q [] h same = refl
  hits-eq-zero key q (item ∷ c) h same =
      ground (arith, hits-eq-zero key q c, casecmp_congr_right item.key key q)

  pub hits-assign : (key q : CString) (v : V) (c : Bucket V) → hits q (assign key v c) ≡ hits q c
  unfolding hits assign
  hits-assign key q v [] = refl
  hits-assign key q v (item ∷ c) = ground (arith, hits-assign key q v c)

  pub addresses-assign :
      (key : CString) (v : V) (c : Bucket V) → addresses (assign key v c) ≡ addresses c
  unfolding assign
  addresses-assign key v [] = refl
  addresses-assign key v (item ∷ c) = ground (arith, addresses-assign key v c)

  pub hits-erase-le : (key q : CString) (c : Bucket V) → hits q (erase key c) ≤ hits q c
  unfolding hits erase
  hits-erase-le key q [] = omega arith
  hits-erase-le key q (item ∷ c) = ground (arith, hits-erase-le key q c)

  pub count-erase :
      (key : CString) (a : ℕ) (c : Bucket V) (item : Item V)
      → find key c ≡ some item
      → count a (addresses (erase key c)) + one_if (a == item.addr) ≡ count a (addresses c)
  unfolding find erase count
  count-erase key a [] item h = cc
  count-erase key a (x ∷ c) item h = ground (arith, count-erase key a c item)

  -- the value of the item found
  abbrev pub value_of : Option (Item V) → Option V
  value_of none = none
  value_of (some item) = some item.addrs

  pub find-assign :
      (key q : CString) (v : V) (c : Bucket V)
      → is_some (find key c) ≡ true
      → value_of (find q (assign key v c)) ≡ (if casecmp key q then some v else value_of (find q c))
  unfolding find assign
  find-assign key q v [] h = cc
  find-assign key q v (item ∷ c) h = ground (
    arith,
    find-assign key q v c,
    casecmp_congr_left item.key key q,
    casecmp_congr_right item.key key q,
  )

  pub find-erase :
      (key q : CString) (c : Bucket V)
      → hits q c ≤ 1
      → find q (erase key c) ≡ (if casecmp key q then none else find q c)
  unfolding find erase hits
  find-erase key q [] h = ground arith
  find-erase key q (item ∷ c) h = ground (
    arith,
    find-erase key q c,
    find-eq-none q c,
    casecmp_congr_left item.key key q,
    casecmp_congr_right item.key key q,
  )
