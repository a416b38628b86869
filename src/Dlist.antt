-- ===== src/Dlist.antt =====
-- Doubly linked lists of allocated cells, as src/hash.c threads the items of a table
-- (first, lnext, lprev) and src/users.c the users of the server (uHead, next, prev).
-- A cell is named by its address; `none` is the NULL pointer.
pub mod Laws
use ape_server.Prelude.{ℕ, Option, none, some, update}

pub record Dlist : Type 0 where
  pub first : Option ℕ
  pub next : ℕ → Option ℕ
  pub prev : ℕ → Option ℕ

abbrev pub empty : Dlist
empty = record { first = none; next = λ _. none; prev = λ _. none }

-- `if (p != NULL) p->prev = q`, and the same for `next`
abbrev pub set_if : Option ℕ → Option ℕ → (ℕ → Option ℕ) → ℕ → Option ℕ
set_if none q f = f
set_if (some p) q f = update f p q

-- the new cell `a` goes to the front
unfoldable pub push_front : ℕ → Dlist → Dlist
push_front a l = record {
  first = some a;
  next = update l.next a l.first;
  prev = set_if l.first (some a) (update l.prev a none);
}

-- `if (a->prev == NULL) first = a->next; else a->prev->next = a->next;`
abbrev pub relink_first : Option ℕ → Option ℕ → Option ℕ → Option ℕ
relink_first none after first = after
relink_first (some p) after first = first

-- and then `if (a->next != NULL) a->next->prev = a->prev;`
unfoldable pub unlink : ℕ → Dlist → Dlist
unlink a l = record {
  first = relink_first (l.prev a) (l.next a) l.first;
  next = set_if (l.prev a) (l.next a) l.next;
  prev = set_if (l.next a) (l.prev a) l.prev;
}
