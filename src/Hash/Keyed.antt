-- ===== src/Hash/Keyed.antt =====
-- Keys are unique up to case in the whole table: each item stands in the bucket of its hash.
use ape_server.Prelude.{
  ℕ, ◌≤◌, ◌≡◌, refl, ap, arith, false, Option, none, some, Option-cases, inl, inr, if◌then◌else◌,
  ◌==◌, ltb, ==_iff, update, zero, suc, sum_below,
}
use ape_server.Prelude.Text.{CString}
use ape_server.Hash.{
  Htbl, hashtbl_init, hashtbl_append, hashtbl_erase, append_key, replace_value, insert_item,
  erase_item, table_size,
}
use ape_server.Hash.Djb.{hach_string, hach_string-casecmp}
use ape_server.Hash.Chain.{Bucket, find, hits, erase, hits-assign, hits-erase-le}
use ape_server.Hash.Items.{
  IsValid, hashtbl_init-IsValid, hashtbl_append-IsValid, hashtbl_erase-IsValid,
}

-- the number of items of all buckets whose key is `q` up to case
abbrev pub occurrences {ℓ} : {V : Type ℓ} → CString → Htbl V → ℕ
occurrences q h = sum_below table_size (λ i. hits q (h.table i))

-- no key that is `q` up to case stands in a bucket that is not that of `q`
abbrev AreHomed {ℓ} : {V : Type ℓ} → (ℕ → Bucket V) → Type 0
AreHomed table = (q : CString) (i : ℕ) → (hach_string q == i) ≡ false → hits q (table i) ≡ 0

pub record IsKeyed {ℓ} {V : Type ℓ} (h : Htbl V) : Type ℓ where
  pub valid : IsValid h
  pub homed : AreHomed h.table
  pub once : (q : CString) → occurrences q h ≤ 1

sum_below-alone :
    (f : ℕ → ℕ) (k n : ℕ)
    → ((i : ℕ) → (k == i) ≡ false → f i ≡ 0)
    → sum_below n f ≤ (if ltb k n then f k else 0)
unfolding sum_below
sum_below-alone f k zero rest = omega arith
sum_below-alone f k (suc n) rest =
    ground (arith, sum_below-alone f k n rest, rest n, ==_iff k n, ap f {x = k} {y = n})

module _ {ℓ} {V : Type ℓ} where
  keyed : (h : Htbl V) → IsValid h → AreHomed h.table → IsKeyed h
  keyed h valid homed = record {
    valid = valid;
    homed = homed;
    once = λ q. ground (
      arith,
      sum_below-alone (λ i. hits q (h.table i)) (hach_string q) table_size (homed q),
      valid.1.unique q (hach_string q),
    );
  }

  pub hashtbl_init-IsKeyed : IsKeyed (hashtbl_init {V = V})
  unfolding hashtbl_init hits
  hashtbl_init-IsKeyed = keyed hashtbl_init hashtbl_init-IsValid (λ q i apart. refl)

  insert_item-homed :
      (h : Htbl V) (key : CString) (v : V) → AreHomed h.table → AreHomed (insert_item h key v).table
  unfolding insert_item hits
  insert_item-homed h key v homed q i apart = ground (
    arith,
    homed q i,
    apart,
    hach_string-casecmp key q,
    ==_iff (hach_string key) i,
    ==_iff (hach_string q) i,
    ap h.table {x = hach_string key} {y = i},
  )

  replace_value-homed :
      (h : Htbl V) (key : CString) (v : V)
      → AreHomed h.table
      → AreHomed (replace_value h key v).table
  unfolding replace_value
  replace_value-homed h key v homed q i apart = ground (
    arith,
    homed q i,
    apart,
    hits-assign key q v (h.table (hach_string key)),
    ==_iff (hach_string key) i,
    ap h.table {x = hach_string key} {y = i},
  )

  erase_item-homed :
      (h : Htbl V) (key : CString)
      → AreHomed h.table
      → AreHomed (update h.table (hach_string key) (erase key (h.table (hach_string key))))
  erase_item-homed h key homed q i apart = ground (
    arith,
    homed q i,
    apart,
    hits-erase-le key q (h.table (hach_string key)),
    ==_iff (hach_string key) i,
    ap h.table {x = hach_string key} {y = i},
  )

  -- In a table where each item stands once in a bucket and once in the list of all items, and keys
  -- are unique up to case in the whole table, each in the bucket of its hash, an append, be the key
  -- new or old, keeps all this.
  pub hashtbl_append-IsKeyed :
      (h : Htbl V) (key : Option CString) (v : V) → IsKeyed h → IsKeyed (hashtbl_append h key v)
  unfolding hashtbl_append
  hashtbl_append-IsKeyed h none v k = k
  hashtbl_append-IsKeyed h (some key) v k =
      keyed (hashtbl_append h (some key) v) (hashtbl_append-IsValid h (some key) v k.valid)
        (elim (Option-cases (find key (h.table (hach_string key)))) [
          | inl new ↦ rw (new, append_key) (insert_item-homed h key v k.homed)
          | inr (item, old) ↦ rw (old, append_key) (replace_value-homed h key v k.homed)
        ])

  -- In a table where each item stands once in a bucket and once in the list of all items, and keys
  -- are unique up to case in the whole table, each in the bucket of its hash, an erase, be the key
  -- there or not, keeps all this.
  pub hashtbl_erase-IsKeyed :
      (h : Htbl V) (key : Option CString) → IsKeyed h → IsKeyed (hashtbl_erase h key)
  unfolding hashtbl_erase erase_item
  hashtbl_erase-IsKeyed h none k = k
  hashtbl_erase-IsKeyed h (some key) k =
      keyed (hashtbl_erase h (some key)) (hashtbl_erase-IsValid h (some key) k.valid)
        (elim (Option-cases (find key (h.table (hach_string key)))) [
          | inl absent ↦ rw (absent, erase_item) k.homed
          | inr (item, there) ↦ rw there (erase_item-homed h key k.homed)
        ])
