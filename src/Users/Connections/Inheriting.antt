-- ===== src/Users/Connections/Inheriting.antt =====
-- addsubuser of src/users.c: a new connection takes over raws with their references.
use ape_server.Prelude.{
  ℕ, suc, ◌+◌, ◌<◌, ◌≡◌, ◌∙◌, ap, refl, sym, subst, arith, true, false, ◌||◌, Option, none, some,
  is_some, List, [], ◌∷◌, ◌++◌, map, replicate, ◌==◌, ltb, length, count, count-append, one_if,
  Bool-cases, inl, inr, ==_refl, ==_iff, update, All, if◌then◌else◌,
}
use ape_server.Prelude.Text.{CString}
use ape_server.Raw.Heap.{Heap, Raw, references, Owns}
use ape_server.Raw.Pool.{Pool, new_pool, new_pool-HoldsRaws}
use ape_server.Users.Connections.{
  Connection, World, getsubuser, inherit, inherit_from, post_copy, new_connection, add_connection,
  addsubuser, max_host_length,
}
use ape_server.Users.Connections.Counted.{
  raws_in, IsPool, IsPool-HoldsRaws, held, held_all, IsPooled, refcount_of, Posted,
  post_copy-Posted,
}

-- The raws of some cells came to a connection, each with a reference.
record Inherited (taken : List ℕ) (h h' : Heap) (c c' : Connection) : Type 0 where
  rest : record c' { pools = c.pools } ≡ c
  pools : IsPooled c'
  in_pools : (q : ℕ) → count q (held c') ≡ count q (held c) + count q taken
  more : (q : ℕ) → references (h' q) ≡ references (h q) + count q taken

Inherited-refl : (h : Heap) (c : Connection) → IsPooled c → Inherited [] h h c c
unfolding count
Inherited-refl h c pools = record {
  rest = refl;
  pools = pools;
  in_pools = λ q. omega arith;
  more = λ q. omega arith;
}

-- `if (refcount == 0) refcount = 1`
abbrev counted_once : ℕ → Raw → Heap → Heap
counted_once r raw h =
    if raw.refcount == 0 then update h r (some (record raw { refcount = 1 })) else h

counted_once-there :
    (r : ℕ) (raw : Raw) (h : Heap)
    → h r ≡ some raw
    → (raw' : Raw) × (counted_once r raw h r ≡ some raw') × (0 < raw'.refcount)
counted_once-there r raw h there = elim (Bool-cases (raw.refcount == 0)) [
  | inl e ↦ (record raw { refcount = 1 }, rw (e, ==_refl r) refl, omega arith)
  | inr e ↦ (raw, rw (e, there) refl, ground (arith, e))
]

counted_once-references :
    (r : ℕ) (raw : Raw) (h : Heap)
    → h r ≡ some raw
    → (q : ℕ) → references (counted_once r raw h q) ≡ references (h q)
counted_once-references r raw h there q = elim (Bool-cases (raw.refcount == 0)) [
  | inr e ↦ rw e refl
  | inl e ↦ elim (Bool-cases (r == q)) [
    | inl at ↦ rw (e, at, ← (==_iff r q).0 at, there) (ground (arith, e))
    | inr other ↦ rw (e, other) refl
  ]
]

-- one raw that is taken over
take_over :
    (r : ℕ) (raw : Raw) (h : Heap) (c : Connection)
    → h r ≡ some raw
    → IsPooled c
    → (h' : Heap) × (c' : Connection) × (post_copy r (counted_once r raw h) c ≡ some (h', c'))
      × Posted r c c'
      × ((q : ℕ) → references (h' q) ≡ references (h q) + one_if (q == r))
take_over r raw h c there pools =
    let (raw', there', positive) = counted_once-there r raw h there in
    let (h', c', e, copied, posted) =
      post_copy-Posted r (counted_once r raw h) c (raw', there') pools in
    (
      h',
      c',
      e,
      posted,
      λ q.
          copied.references (subst (λ o. 0 < refcount_of o) (sym there') positive) q
          ∙ ap (λ n. n + one_if (q == r)) (counted_once-references r raw h there q),
    )

cells_of : List ℕ → ℕ → List (Option ℕ)
cells_of rs free = map some rs ++ replicate (suc free) none

is_there : (o : Option Raw) → 0 < references o → (raw : Raw) × (o ≡ some raw)
is_there none h = absurd (omega (arith, h))
is_there (some raw) h = (raw, refl)

inherit-take :
    (r : ℕ) (raw : Raw) (cells : List (Option ℕ)) (h h' : Heap) (c c' : Connection)
    → h r ≡ some raw
    → post_copy r (counted_once r raw h) c ≡ some (h', c')
    → inherit (some r ∷ cells) h c ≡ inherit cells h' c'
unfolding inherit
inherit-take r raw cells h h' c c' there e = rw (there, e) refl

inherit-Inherited :
    (rs : List ℕ) (free : ℕ) (h : Heap) (c : Connection)
    → IsPooled c
    → ((q : ℕ) → 0 < count q rs → 0 < references (h q))
    → (h' : Heap) × (c' : Connection) × (inherit (cells_of rs free) h c ≡ some (h', c'))
      × Inherited rs h h' c c'
unfolding inherit cells_of count
inherit-Inherited [] free h c pools own = (h, c, refl, Inherited-refl h c pools)
inherit-Inherited (r ∷ rs) free h c pools own =
    let here : one_if (r == r) ≡ 1 = rw (==_refl r) refl in
    let (raw, there) = is_there (h r) (own r (omega (arith, here))) in
    let (h', c', e, posted, more) = take_over r raw h c there pools in
    let (h'', c'', e', i) =
      inherit-Inherited rs free h' c' posted.pools
        (λ q some_cell. omega (arith, more q, own q (omega (arith, some_cell)))) in
    (
      h'',
      c'',
      inherit-take r raw (cells_of rs free) h h' c c' there e ∙ e',
      record {
        rest = ap (λ (x : Connection). record x { pools = c.pools }) i.rest ∙ posted.rest;
        pools = i.pools;
        in_pools = λ q. omega (arith, posted.one_more q, i.in_pools q);
        more = λ q. omega (arith, more q, i.more q);
      },
    )

-- what a new connection takes over: the raws of low priority of the one before it
abbrev pub inherited : List Connection → List ℕ
inherited [] = []
inherited (p ∷ cs) = raws_in p.pools.low.cells

no_raws : (p : Pool) (q : ℕ) → IsPool p → (p.nraw == 0) ≡ true → count q (raws_in p.cells) ≡ 0
unfolding count
no_raws p q h e = none_in (raws_in p.cells) (ground (arith, e, h.nraw))
  where
    none_in : (rs : List ℕ) → length rs ≡ 0 → count q rs ≡ 0
    none_in [] l = refl
    none_in (r ∷ rs) l = absurd (omega (arith, l))

inherit_cells :
    (p : Pool) (h : Heap) (c : Connection)
    → IsPool p
    → IsPooled c
    → ((q : ℕ) → 0 < count q (raws_in p.cells) → 0 < references (h q))
    → (h' : Heap) × (c' : Connection) × (inherit p.cells h c ≡ some (h', c'))
      × Inherited (raws_in p.cells) h h' c c'
unfolding cells_of
inherit_cells p h c pool pools own =
    let (h', c', e, i) = inherit-Inherited (raws_in p.cells) pool.free h c pools own in
    (h', c', ap (λ cells. inherit cells h c) pool.cells ∙ e, i)

inherit_from-Inherited :
    (cs : List Connection) (h : Heap) (c : Connection)
    → IsPooled c
    → All IsPooled cs
    → Owns h (held_all cs)
    → (h' : Heap) × (c' : Connection) × (inherit_from cs h c ≡ some (h', c'))
      × Inherited (inherited cs) h h' c c'
unfolding inherit_from count
inherit_from-Inherited [] h c pools ps own = (h, c, refl, Inherited-refl h c pools)
inherit_from-Inherited (p ∷ cs) h c pools (pp, ps) own = elim (Bool-cases (p.pools.low.nraw == 0)) [
  | inl e ↦ (
    h,
    c,
    rw (inherit_from, e) refl,
    record {
      rest = refl;
      pools = pools;
      in_pools = λ q. omega (arith, no_raws p.pools.low q pp.low e);
      more = λ q. omega (arith, no_raws p.pools.low q pp.low e);
    },
  )
  | inr e ↦
      let (h', c', run, i) = inherit_cells p.pools.low h c pp.low pools (λ q some_cell. omega (
        arith,
        some_cell,
        own q,
        count-append q (held p) (held_all cs),
        count-append q (raws_in p.pools.low.cells) (raws_in p.pools.high.cells),
      )) in
      (h', c', rw (inherit_from, e) run, i)
]

new-IsPooled :
    (address client : ℕ) (channel : CString) (time : ℕ)
    → IsPooled (new_connection address client channel time)
new-IsPooled address client channel time = record {
  low = IsPool-HoldsRaws (new_pool 32) [] (new_pool-HoldsRaws 31);
  high = IsPool-HoldsRaws (new_pool 8) [] (new_pool-HoldsRaws 7);
}

new-empty :
    (address client : ℕ) (channel : CString) (time q : ℕ)
    → count q (held (new_connection address client channel time)) ≡ 0
unfolding new_pool count
new-empty address client channel time q = refl

-- For a user who has no connection for a channel, whose name has 256 bytes at most, and whose
-- connections' pools hold raws from their head on with a free cell behind them, each with a reference
-- for each cell, and maybe others (a raw that was posted with the count 0 has one): addsubuser puts a
-- new connection in front of the others, without an access through NULL or to freed memory. But for
-- its pools it is the one that the client and the channel are given for; it has the raws of low
-- priority of the connection before it, each of which has a reference more, so that all cells stand
-- for references as before.
pub addsubuser-Owns :
    (address client : ℕ) (channel : CString) (time : ℕ) (w : World)
    → (is_some (getsubuser w.subuser channel) || ltb max_host_length (length channel)) ≡ false
    → All IsPooled w.subuser
    → Owns w.heap (held_all w.subuser)
    → (w' : World) × (c : Connection) × (addsubuser address client channel time w ≡ some w')
      × (w'.subuser ≡ c ∷ w.subuser)
      × (record c { pools = (new_connection address client channel time).pools }
          ≡ new_connection address client channel time)
      × IsPooled c
      × ((q : ℕ) → count q (held c) ≡ count q (inherited w.subuser))
      × ((q : ℕ) → references (w'.heap q) ≡ references (w.heap q) + count q (inherited w.subuser))
      × Owns w'.heap (held_all w'.subuser)
unfolding addsubuser
addsubuser-Owns address client channel time w new pools own =
    let first = new_connection address client channel time in
    let (h, c, e, i) =
      inherit_from-Inherited w.subuser w.heap first (new-IsPooled address client channel time) pools
        own in
    let fresh : (q : ℕ) → count q (held c) ≡ count q (inherited w.subuser) =
      λ q. omega (arith, i.in_pools q, new-empty address client channel time q) in
    (
      add_connection w (h, c),
      c,
      rw (addsubuser, new, e) refl,
      refl,
      i.rest,
      i.pools,
      fresh,
      i.more,
      λ q. omega (arith, i.more q, fresh q, own q, count-append q (held c) (held_all w.subuser)),
    )
