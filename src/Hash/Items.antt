-- ===== src/Hash/Items.antt =====
-- Each item stands once in a bucket and once in the list of all items; keys are unique up to case in
-- each bucket.
use ape_server.Prelude.{
  ℕ, zero, suc, ◌+◌, ◌≤◌, ◌<◌, ◌≡◌, refl, inl, inr, Option, none, some, arith, if◌then◌else◌,
  update, ==_iff, List, [], ◌∷◌, count, sum_below, remove, count-remove, count-append, Option-cases,
  sym, ap, sum_below-update,
}
use ape_server.Prelude.Text.{CString, casecmp}
use ape_server.Dlist.Laws.{Holds, empty-Holds, push_front-Holds, unlink-Holds}
use ape_server.Hash.{
  Htbl, hashtbl_init, hashtbl_append, hashtbl_erase, hashtbl_seek, append_key, replace_value,
  insert_item, erase_item, table_size, freed_below, hashtbl_free,
}
use ape_server.Hash.Djb.{hach_string, hach_string-lt}
use ape_server.Hash.Seek.{seek-erase}
use ape_server.Hash.Chain.{
  Item, Bucket, find, hits, erase, assign, addresses, addresses-assign, count-erase, hits-assign,
  hits-erase-le, hits-eq-zero,
}

-- the number of items at an address in the buckets
abbrev placed {ℓ} : {V : Type ℓ} → ℕ → (ℕ → Bucket V) → ℕ
placed a table = sum_below table_size (λ i. count a (addresses (table i)))

-- `items` are the addresses of the items, as the list of all items has them.
pub record IsTable {ℓ} {V : Type ℓ} (h : Htbl V) (items : List ℕ) : Type ℓ where
  pub unique : (q : CString) (i : ℕ) → hits q (h.table i) ≤ 1
  pub linked : Holds h.all items
  pub everywhere : (a : ℕ) → count a items ≡ placed a h.table
  pub allocated : (a : ℕ) → h.fresh ≤ a → count a items ≡ 0

abbrev pub IsValid {ℓ} : {V : Type ℓ} → Htbl V → Type ℓ
IsValid h = (items : List ℕ) × IsTable h items

sum_below-zero : (n : ℕ) → sum_below n (λ _. 0) ≡ 0
unfolding sum_below
sum_below-zero zero = refl
sum_below-zero (suc n) = omega (arith, sum_below-zero n)

count-nil : (a : ℕ) → count a [] ≡ 0
unfolding count
count-nil a = refl

module _ {ℓ} {V : Type ℓ} where
  pub hashtbl_init-IsValid : IsValid (hashtbl_init {V = V})
  unfolding hashtbl_init hits count
  hashtbl_init-IsValid = (
    [],
    record {
      unique = λ q i. omega arith;
      linked = empty-Holds;
      everywhere = λ a. sym (sum_below-zero table_size);
      allocated = λ a le. refl;
    },
  )

  -- One bucket changes: the number of items at an address changes as in that bucket.
  placed-update :
      (a : ℕ) (table : ℕ → Bucket V) (k : ℕ) (c : Bucket V)
      → k < table_size
      → placed a (update table k c) + count a (addresses (table k))
        ≡ placed a table + count a (addresses c)
  placed-update a table k c lt =
      let f : ℕ → ℕ = λ i. count a (addresses (update table k c i)) in
      let g : ℕ → ℕ = λ i. count a (addresses (table i)) in
      let here : f k ≡ count a (addresses c) = ground (arith) in
      omega (arith, here, sum_below-update f g table_size k lt (λ j apart. ground (arith)))

  insert_item-IsTable :
      (h : Htbl V) (key : CString) (v : V) (items : List ℕ)
      → IsTable h items
      → find key (h.table (hach_string key)) ≡ none
      → IsTable (insert_item h key v) (h.fresh ∷ items)
  unfolding insert_item hits count
  insert_item-IsTable h key v items t new =
      let k = hach_string key in
      record {
        unique = λ q i. ground (
          arith,
          t.unique q i,
          hits-eq-zero key q (h.table k),
          ==_iff k i,
          ap h.table {x = k} {y = i},
        );
        linked = push_front-Holds h.fresh h.all items t.linked (t.allocated h.fresh (omega arith));
        everywhere = λ a. omega (
          arith,
          t.everywhere a,
          placed-update a h.table k (record { addr = h.fresh; key = key; addrs = v } ∷ h.table k)
              (hach_string-lt key),
        );
        allocated = λ a le. ground (arith, t.allocated a);
      }

  replace_value-IsTable :
      (h : Htbl V) (key : CString) (v : V) (items : List ℕ)
      → IsTable h items
      → IsTable (replace_value h key v) items
  unfolding replace_value
  replace_value-IsTable h key v items t =
      let k = hach_string key in
      record {
        unique = λ q i. ground (arith, t.unique q i, hits-assign key q v (h.table k), t.unique q k);
        linked = t.linked;
        everywhere = λ a. omega (
          arith,
          t.everywhere a,
          placed-update a h.table k (assign key v (h.table k)) (hach_string-lt key),
          ap (count a) (addresses-assign key v (h.table k)),
        );
        allocated = t.allocated;
      }

  -- In a table where each item stands once in a bucket and once in the list of all items, and
  -- keys are unique in each bucket up to case, an append, be the key new or old, keeps all this.
  pub hashtbl_append-IsValid :
      (h : Htbl V) (key : Option CString) (v : V) → IsValid h → IsValid (hashtbl_append h key v)
  unfolding hashtbl_append
  hashtbl_append-IsValid h none v valid = valid
  hashtbl_append-IsValid h (some key) v (items, t) =
      elim (Option-cases (find key (h.table (hach_string key)))) [
        | inl new ↦
            (h.fresh ∷ items, rw (new, append_key) (insert_item-IsTable h key v items t new))
        | inr (item, old) ↦ (items, rw (old, append_key) (replace_value-IsTable h key v items t))
      ]

  count-find :
      (key : CString) (c : Bucket V) (item : Item V)
      → find key c ≡ some item
      → 0 < count item.addr (addresses c)
  count-find key c item h = ground (arith, count-erase key item.addr c item h)

  item_inside :
      (h : Htbl V) (key : CString) (item : Item V) (items : List ℕ)
      → IsTable h items
      → find key (h.table (hach_string key)) ≡ some item
      → 0 < count item.addr items
  item_inside h key item items t there =
      let k = hach_string key in
      omega (
        arith,
        t.everywhere item.addr,
        placed-update item.addr h.table k [] (hach_string-lt key),
        count-find key (h.table k) item there,
        count-nil item.addr,
      )

  erase_item-IsTable :
      (h : Htbl V) (key : CString) (item : Item V) (items : List ℕ)
      → IsTable h items
      → find key (h.table (hach_string key)) ≡ some item
      → IsTable (erase_item h key (some item)) (remove item.addr items)
  unfolding erase_item
  erase_item-IsTable h key item items t there =
      let k = hach_string key in
      let inside = item_inside h key item items t there in
      record {
        unique = λ q i. ground (arith, t.unique q i, hits-erase-le key q (h.table k), t.unique q k);
        linked = unlink-Holds item.addr h.all items t.linked inside;
        everywhere = λ a. omega (
          arith,
          t.everywhere a,
          count-remove item.addr a items inside,
          placed-update a h.table k (erase key (h.table k)) (hach_string-lt key),
          count-erase key a (h.table k) item there,
        );
        allocated = λ a le. omega (arith, t.allocated a le, count-remove item.addr a items inside);
      }

  -- In a table where each item stands once in a bucket and once in the list of all items, and
  -- keys are unique in each bucket up to case, an erase, be the key there or not, keeps all this.
  pub hashtbl_erase-IsValid :
      (h : Htbl V) (key : Option CString) → IsValid h → IsValid (hashtbl_erase h key)
  unfolding hashtbl_erase
  hashtbl_erase-IsValid h none valid = valid
  hashtbl_erase-IsValid h (some key) (items, t) =
      elim (Option-cases (find key (h.table (hach_string key)))) [
        | inl absent ↦ (items, rw (absent, erase_item) t)
        | inr (item, there) ↦
            (remove item.addr items, rw there (erase_item-IsTable h key item items t there))
      ]

  -- In a valid table, a seek after an erase finds nothing under the keys that are equal to the
  -- erased one up to case, and under all other keys what it found before.
  pub seek-erase_valid :
      (h : Htbl V) (key q : CString)
      → IsValid h
      → hashtbl_seek (hashtbl_erase h (some key)) (some q)
        ≡ (if casecmp key q then none else hashtbl_seek h (some q))
  seek-erase_valid h key q (items, t) = seek-erase h key q (t.unique q (hach_string q))

  count-freed_below :
      (a n : ℕ) (table : ℕ → Bucket V)
      → count a (freed_below n table) ≡ sum_below n (λ i. count a (addresses (table i)))
  unfolding freed_below count sum_below
  count-freed_below a zero table = refl
  count-freed_below a (suc n) table = omega (
    arith,
    count-append a (freed_below n table) (addresses (table n)),
    count-freed_below a n table,
  )

  -- From a table where each item stands once in a bucket and once in the list of all items,
  -- `hashtbl_free` gives every item of that list back exactly once, and nothing else.
  pub hashtbl_free_once :
      (h : Htbl V) (items : List ℕ) (a : ℕ)
      → IsTable h items
      → (count a (hashtbl_free h) ≡ count a items) × (count a (hashtbl_free h) < 2)
  unfolding hashtbl_free
  hashtbl_free_once h items a t =
      omega (arith, t.everywhere a, count-freed_below a table_size h.table, t.linked.once a)
