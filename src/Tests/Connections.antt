-- ===== src/Tests/Connections.antt =====
-- src/users.c and src/raw.c: a user with two connections, the first of which holds a raw.
use ape_server.Prelude.{
  ℕ, ◌+◌, ◌≡◌, refl, arith, true, none, some, is_some, ltb, List, [], ◌∷◌, count, set, update,
}
use ape_server.Prelude.Text.{codes, str_eq}
use ape_server.Raw.Heap.{Heap, Raw, lo, references, Owns}
use ape_server.Raw.Pool.{Pool, new_pool, init_raw_pool, new_pool-HoldsRaws}
use ape_server.Users.Connections.{
  Connection, World, new_connection, getsubuser, addsubuser, post_raw, clear_subusers,
}
use ape_server.Users.Connections.Counted.{IsPooled, IsPool-HoldsRaws, held, held_all}
use ape_server.Users.Connections.Posting.{Spread, post_raw-Spread}
use ape_server.Users.Connections.Inheriting.{inherited, addsubuser-Owns}
use ape_server.Users.Connections.Clearing.{GivenUp, clear_subusers-GivenUp}

abbrev message : Raw
message = record { content = codes "{}"; priority = lo; refcount = 0 }

-- the raw 7, posted with the count 0, and the raw 8 that nobody holds yet
abbrev heap : Heap
heap = update (update (λ _. none) 7 (some message)) 8 (some message)

abbrev one_raw : Pool
one_raw = record (new_pool 32) { cells = set (init_raw_pool 32) 0 (some 7); foot = 1; nraw = 1 }

abbrev first : Connection
first = record (new_connection 1 5 (codes "0") 0) {
  alive = true;
  pools = record { low = one_raw; high = new_pool 8; nraw = 1 };
}

abbrev second : Connection
second = new_connection 2 6 (codes "1") 0

abbrev two : List Connection
two = first ∷ second ∷ []

abbrev world : World
world = record { heap = heap; subuser = two; nsub = 2; shut = []; freed = [] }

first-IsPooled : IsPooled first
unfolding new_pool init_raw_pool
first-IsPooled = record {
  low = record { free = 30; cells = refl; foot = refl; nraw = refl; size = refl };
  high = IsPool-HoldsRaws (new_pool 8) [] (new_pool-HoldsRaws 7);
}

second-IsPooled : IsPooled second
second-IsPooled = record {
  low = IsPool-HoldsRaws (new_pool 32) [] (new_pool-HoldsRaws 31);
  high = IsPool-HoldsRaws (new_pool 8) [] (new_pool-HoldsRaws 7);
}

two-Owns : Owns heap (held_all two)
unfolding new_pool init_raw_pool count
two-Owns = λ q. ground arith

post_raw-Spread_example :
    (h' : Heap) × (cs' : List Connection) × (post_raw 8 heap two ≡ some (h', cs'))
    × Spread 8 heap h' two cs'
post_raw-Spread_example =
    post_raw-Spread 8 heap two (_, refl) (first-IsPooled, (second-IsPooled, tt))

addsubuser-Owns_example :
    (w' : World) × (c : Connection) × (addsubuser 3 9 (codes "2") 100 world ≡ some w')
    × (w'.subuser ≡ c ∷ two)
    × (record c { pools = (new_connection 3 9 (codes "2") 100).pools }
        ≡ new_connection 3 9 (codes "2") 100)
    × IsPooled c
    × ((q : ℕ) → count q (held c) ≡ count q (inherited two))
    × ((q : ℕ) → references (w'.heap q) ≡ references (heap q) + count q (inherited two))
    × Owns w'.heap (held_all w'.subuser)
unfolding getsubuser str_eq
addsubuser-Owns_example =
    addsubuser-Owns 3 9 (codes "2") 100 world refl (first-IsPooled, (second-IsPooled, tt)) two-Owns

clear_subusers-GivenUp_example :
    (w' : World) × (clear_subusers world ≡ some w')
    × (w'.subuser ≡ [])
    × GivenUp (held_all two) heap w'.heap
    × ((q : ℕ) → is_some (w'.heap q) ≡ ltb (count q (held_all two)) (references (heap q)))
clear_subusers-GivenUp_example = clear_subusers-GivenUp world two-Owns
