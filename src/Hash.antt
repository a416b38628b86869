-- ===== src/Hash.antt =====
-- src/hash.c: the string-keyed table behind the users, channels, pipes and commands of the server.
-- A bucket's chain (`next`) is owned by its bucket and is a list; the list of all items
-- (`first`, `lnext`, `lprev`) threads through the buckets and is kept as pointers (Dlist).
-- An item is named by its address; `fresh` is the address that the next allocation returns.
-- A value `V` is what the `void *` points to, never NULL.
pub mod Djb
pub mod Chain
pub mod Seek
pub mod Items
pub mod Keyed
use ape_server.Prelude.{
  ℕ, ◌+◌, Bool, true, false, Option, none, some, List, [], ◌∷◌, ◌++◌, map, update, if◌then◌else◌,
  suc, zero, is_some,
}
use ape_server.Prelude.Text.{CString}
use ape_server.Dlist.{Dlist, push_front, unlink}
use ape_server.Dlist
use Djb.{hach_string}
use Chain.{Item, Bucket, find, assign, erase, addresses, value_of}

-- HACH_TABLE_MAX + 1 cells are allocated
abbrev pub table_size : ℕ
table_size = 5382

pub record Htbl {ℓ} (V : Type ℓ) : Type ℓ where
  pub table : ℕ → Bucket V
  pub all : Dlist
  pub fresh : ℕ

module _ {ℓ} {V : Type ℓ} where
  pub hashtbl_init : Htbl V
  hashtbl_init = record { table = λ _. []; all = Dlist.empty; fresh = 0 }

  -- the loop over the chain found an item with this key: its value is replaced
  replace_value : Htbl V → CString → V → Htbl V
  replace_value h key v =
      let k = hach_string key in record h { table = update h.table k (assign key v (h.table k)) }

  -- a new item at the front of its chain and of the list of all items
  insert_item : Htbl V → CString → V → Htbl V
  insert_item h key v =
      let k = hach_string key in
      let item : Item V = record { addr = h.fresh; key = key; addrs = v } in
      record {
        table = update h.table k (item ∷ h.table k);
        all = push_front h.fresh h.all;
        fresh = suc h.fresh;
      }

  append_key : Htbl V → CString → V → Htbl V
  unfolding replace_value insert_item
  append_key h key v =
      if is_some (find key (h.table (hach_string key)))
      then replace_value h key v
      else insert_item h key v

  pub hashtbl_append : Htbl V → Option CString → V → Htbl V
  unfolding append_key
  hashtbl_append h none v = h
  hashtbl_append h (some key) v = append_key h key v

  -- the item found is unlinked from its chain and from the list of all items, and freed
  erase_item : Htbl V → CString → Option (Item V) → Htbl V
  erase_item h key none = h
  erase_item h key (some item) =
      let k = hach_string key in
      record h { table = update h.table k (erase key (h.table k)); all = unlink item.addr h.all }

  pub hashtbl_erase : Htbl V → Option CString → Htbl V
  unfolding erase_item
  hashtbl_erase h none = h
  hashtbl_erase h (some key) = erase_item h key (find key (h.table (hach_string key)))

  pub hashtbl_seek : Htbl V → Option CString → Option V
  hashtbl_seek h none = none
  hashtbl_seek h (some key) = value_of (find key (h.table (hach_string key)))

  -- the loops of `hashtbl_free`: the addresses given back by the first `n` buckets
  freed_below : ℕ → (ℕ → Bucket V) → List ℕ
  freed_below zero table = []
  freed_below (suc n) table = freed_below n table ++ addresses (table n)

  -- the items that `hashtbl_free` gives back
  pub hashtbl_free : Htbl V → List ℕ
  unfolding freed_below
  hashtbl_free h = freed_below table_size h.table
