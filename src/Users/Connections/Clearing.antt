-- ===== src/Users/Connections/Clearing.antt =====
-- delsubuser and clear_subusers of src/users.c, destroy_raw_pool of src/raw.c: a connection gives up
-- the references of its pools.
use ape_server.Prelude.{
  ℕ, ◌+◌, ◌-◌, ◌<◌, ◌≡◌, ◌∙◌, subst, sym, refl, arith, Option, none, some, is_some, List, [], ◌∷◌,
  ◌++◌, ltb, count, count-append, Bool-cases, inl, inr,
}
use ape_server.Raw.Heap.{Heap, Raw, references, content_of, Owns, free_raw-Owns}
use ape_server.Users.Connections.{
  Connection, World, destroy_raw_pool, do_died, dismiss, delsubuser, clear_by, clear_subusers,
}
use ape_server.Users.Connections.Counted.{raws_in, held, held_all}

-- Some references were given up; the raws that have any left are as they were.
pub record GivenUp (rs : List ℕ) (h h' : Heap) : Type 0 where
  pub left : (q : ℕ) → references (h' q) + count q rs ≡ references (h q)
  pub contents : (q : ℕ) → 0 < references (h' q) → content_of h' q ≡ content_of h q

GivenUp-none : (h : Heap) → GivenUp [] h h
unfolding count
GivenUp-none h = record { left = λ q. omega arith; contents = λ q some_ref. refl }

GivenUp-append :
    (rs more : List ℕ) (h h' h'' : Heap)
    → GivenUp rs h h'
    → GivenUp more h' h''
    → GivenUp (rs ++ more) h h''
GivenUp-append rs more h h' h'' a b = record {
  left = λ q. omega (arith, a.left q, b.left q, count-append q rs more);
  contents = λ q some_ref. b.contents q some_ref ∙ a.contents q (omega (arith, some_ref, b.left q));
}

destroy_raw_pool-GivenUp :
    (cells : List (Option ℕ)) (h : Heap)
    → Owns h (raws_in cells)
    → (h' : Heap) × (destroy_raw_pool cells h ≡ some h') × GivenUp (raws_in cells) h h'
unfolding destroy_raw_pool count
destroy_raw_pool-GivenUp [] h own = (h, refl, GivenUp-none h)
destroy_raw_pool-GivenUp (none ∷ cells) h own = destroy_raw_pool-GivenUp cells h own
destroy_raw_pool-GivenUp (some r ∷ cells) h own =
    let (h', e, own', less, same) = free_raw-Owns r (raws_in cells) h own in
    let (h'', e', b) = destroy_raw_pool-GivenUp cells h' own' in
    (
      h'',
      rw (destroy_raw_pool, e) e',
      record {
        left = λ q. omega (arith, less q, b.left q);
        contents = λ q some_ref. b.contents q some_ref ∙ same q (omega (arith, some_ref, b.left q));
      },
    )

dismiss-same :
    (c : Connection) (w : World)
    → ((dismiss c w).heap ≡ w.heap)
      × ((dismiss c w).subuser ≡ w.subuser)
      × ((dismiss c w).nsub ≡ w.nsub)
unfolding dismiss do_died
dismiss-same c w = elim (Bool-cases c.alive) [
  | inl e ↦ rw (dismiss, e) (refl, refl, refl)
  | inr e ↦ rw (dismiss, e) (refl, refl, refl)
]

-- a connection less, which has given up its references
record Dismissed (c : Connection) (cs : List Connection) (w w' : World) : Type 0 where
  subuser : w'.subuser ≡ cs
  given_up : GivenUp (held c) w.heap w'.heap

delsubuser-Dismissed :
    (c : Connection) (cs : List Connection) (w : World)
    → w.subuser ≡ c ∷ cs
    → Owns w.heap (held c)
    → (w' : World) × (delsubuser w ≡ some w') × Dismissed c cs w w'
unfolding delsubuser
delsubuser-Dismissed c cs w e own =
    let low = raws_in c.pools.low.cells in
    let high = raws_in c.pools.high.cells in
    let (h, run, a) =
      destroy_raw_pool-GivenUp c.pools.low.cells w.heap
        (λ q. omega (arith, own q, count-append q low high)) in
    let (h', run', b) =
      destroy_raw_pool-GivenUp c.pools.high.cells h
        (λ q. omega (arith, own q, count-append q low high, a.left q)) in
    let left = record w { heap = h'; subuser = cs; nsub = w.nsub - 1 } in
    let (heap, subuser, nsub) = dismiss-same c left in
    (
      dismiss c left,
      rw (delsubuser, e, run, run') refl,
      record {
        subuser = subuser;
        given_up =
            subst (GivenUp (held c) w.heap) (sym heap) (GivenUp-append low high w.heap h h' a b);
      },
    )

clear_by-GivenUp :
    (cs : List Connection) (w : World)
    → w.subuser ≡ cs
    → Owns w.heap (held_all cs)
    → (w' : World) × (clear_by cs w ≡ some w')
      × (w'.subuser ≡ [])
      × GivenUp (held_all cs) w.heap w'.heap
unfolding clear_by
clear_by-GivenUp [] w e own = (w, refl, e, GivenUp-none w.heap)
clear_by-GivenUp (c ∷ cs) w e own =
    let (w', run, d) =
      delsubuser-Dismissed c cs w e
        (λ q. omega (arith, own q, count-append q (held c) (held_all cs))) in
    let (w'', run', empty, rest) =
      clear_by-GivenUp cs w' d.subuser
        (λ q. omega (arith, own q, count-append q (held c) (held_all cs), d.given_up.left q)) in
    (
      w'',
      rw (run) run',
      empty,
      GivenUp-append (held c) (held_all cs) w.heap w'.heap w''.heap d.given_up rest,
    )

is_some-references : (o : Option Raw) → is_some o ≡ ltb 0 (references o)
is_some-references none = refl
is_some-references (some raw) = ground arith

-- Where every raw in a cell of the connections has a reference for each of these cells, and maybe
-- others (a raw that was posted with the count 0 has one), clear_subusers meets no NULL pointer and no
-- memory that is freed, and leaves no connection; each raw has lost one reference for each cell that
-- held it; it is freed if it had no other, and otherwise keeps its content.
pub clear_subusers-GivenUp :
    (w : World)
    → Owns w.heap (held_all w.subuser)
    → (w' : World) × (clear_subusers w ≡ some w')
      × (w'.subuser ≡ [])
      × GivenUp (held_all w.subuser) w.heap w'.heap
      × ((q : ℕ) → is_some (w'.heap q) ≡ ltb (count q (held_all w.subuser)) (references (w.heap q)))
unfolding clear_subusers
clear_subusers-GivenUp w own =
    let (w', run, empty, a) = clear_by-GivenUp w.subuser w refl own in
    (w', run, empty, a, λ q. is_some-references (w'.heap q) ∙ ground (arith, a.left q))
