-- ===== src/Users/Connections/Counted.antt =====
-- The references of a raw are the cells that hold it, in the pools of all connections.
use ape_server.Prelude.{
  ℕ, zero, suc, ◌+◌, ◌<◌, ◌≡◌, ◌∙◌, ap, refl, arith, Option, none, some, List, [], ◌∷◌, ◌++◌, map,
  replicate, ◌==◌, update, count, count-append, one_if, Bool-cases, inl, inr, ==_iff, ==_refl,
  ==_symm,
}
use ape_server.Raw.Heap.{Heap, Raw, Priority, lo, hi, copy_raw_z, references}
use ape_server.Raw.Pool.{Pool, post, HoldsRaws, post-HoldsRaws}
use ape_server.Users.Connections.{Connection, put_low, put_high, post_by, post_raw_sub, post_copy}

abbrev pub raws_in : List (Option ℕ) → List ℕ
raws_in [] = []
raws_in (none ∷ cells) = raws_in cells
raws_in (some r ∷ cells) = r ∷ raws_in cells

abbrev pub IsPool : Pool → Type 0
IsPool p = HoldsRaws p (raws_in p.cells)

raws_in-cells : (rs : List ℕ) (n : ℕ) → raws_in (map some rs ++ replicate n none) ≡ rs
raws_in-cells [] zero = refl
raws_in-cells [] (suc n) = raws_in-cells [] n
raws_in-cells (r ∷ rs) n = ap (λ t. r ∷ t) (raws_in-cells rs n)

raws_in-HoldsRaws : (p : Pool) (rs : List ℕ) → HoldsRaws p rs → raws_in p.cells ≡ rs
raws_in-HoldsRaws p rs h = ap raws_in h.cells ∙ raws_in-cells rs (suc h.free)

pub IsPool-HoldsRaws : (p : Pool) (rs : List ℕ) → HoldsRaws p rs → IsPool p
IsPool-HoldsRaws p rs h = rw (raws_in-HoldsRaws p rs h) h

-- the raws of a connection, and of several
abbrev pub held : Connection → List ℕ
held c = raws_in c.pools.low.cells ++ raws_in c.pools.high.cells

abbrev pub held_all : List Connection → List ℕ
held_all [] = []
held_all (c ∷ cs) = held c ++ held_all cs

pub record IsPooled (c : Connection) : Type 0 where
  pub low : IsPool c.pools.low
  pub high : IsPool c.pools.high

abbrev pub refcount_of : Option Raw → ℕ
refcount_of none = 0
refcount_of (some raw) = raw.refcount

pub allocated :
    (o : Option Raw) → 0 < refcount_of o → (raw : Raw) × (o ≡ some raw) × (0 < raw.refcount)
allocated none h = absurd (omega (arith, h))
allocated (some raw) h = (raw, refl, h)

-- The raw `r` is in one cell more, and nothing but the pools has changed.
pub record Posted (r : ℕ) (c c' : Connection) : Type 0 where
  pub rest : record c' { pools = c.pools } ≡ c
  pub pools : IsPooled c'
  pub one_more : (q : ℕ) → count q (held c') ≡ count q (held c) + one_if (q == r)

post-one_more :
    (r : ℕ) (p : Pool)
    → IsPool p
    → (p' : Pool) × (post r p ≡ some p')
      × IsPool p'
      × ((q : ℕ) → count q (raws_in p'.cells) ≡ count q (raws_in p.cells) + one_if (q == r))
unfolding count
post-one_more r p h =
    let (p', e, h') = post-HoldsRaws r p (raws_in p.cells) h in
    (
      p',
      e,
      IsPool-HoldsRaws p' (raws_in p.cells ++ r ∷ []) h',
      λ q.
          rw (raws_in-HoldsRaws p' (raws_in p.cells ++ r ∷ []) h')
            (omega (arith, count-append q (raws_in p.cells) (r ∷ []))),
    )

post_by-Posted :
    (pr : Priority) (r : ℕ) (c : Connection)
    → IsPooled c
    → (c' : Connection) × (post_by pr r c ≡ some c') × Posted r c c'
unfolding post_by
post_by-Posted lo r c h =
    let (p, e, h', m) = post-one_more r c.pools.low h.low in
    (
      put_low c p,
      rw e refl,
      record {
        rest = refl;
        pools = record { low = h'; high = h.high };
        one_more = λ q. omega (
          arith,
          m q,
          count-append q (raws_in c.pools.low.cells) (raws_in c.pools.high.cells),
          count-append q (raws_in p.cells) (raws_in c.pools.high.cells),
        );
      },
    )
post_by-Posted hi r c h =
    let (p, e, h', m) = post-one_more r c.pools.high h.high in
    (
      put_high c p,
      rw e refl,
      record {
        rest = refl;
        pools = record { low = h.low; high = h' };
        one_more = λ q. omega (
          arith,
          m q,
          count-append q (raws_in c.pools.low.cells) (raws_in c.pools.high.cells),
          count-append q (raws_in c.pools.low.cells) (raws_in p.cells),
        );
      },
    )

-- The raw is on the heap still, with one reference more for each cell.
pub record Copied (r : ℕ) (h h' : Heap) : Type 0 where
  pub there : (raw : Raw) × (h' r ≡ some raw)
  pub one_more : (q : ℕ) → refcount_of (h' q) ≡ refcount_of (h q) + one_if (q == r)
  pub references :
      0 < refcount_of (h r) → (q : ℕ) → references (h' q) ≡ references (h q) + one_if (q == r)

copy_raw_z-Copied :
    (r : ℕ) (h : Heap) (raw : Raw)
    → h r ≡ some raw
    → (h' : Heap) × (copy_raw_z r h ≡ some h') × Copied r h h'
unfolding copy_raw_z
copy_raw_z-Copied r h raw there =
    let more = record raw { refcount = raw.refcount + 1 } in
    (
      update h r (some more),
      rw (copy_raw_z, there) refl,
      record {
        there = (more, rw (==_refl r) refl);
        one_more = by_place;
        references = by_references;
      },
    )
  where
    by_place :
        (q : ℕ)
        → refcount_of (update h r (some (record raw { refcount = raw.refcount + 1 })) q)
          ≡ refcount_of (h q) + one_if (q == r)
    by_place q = elim (Bool-cases (r == q)) [
      | inl e ↦ let same = (==_iff r q).0 e in rw (e, ← same, there, ==_refl r) refl
      | inr e ↦ rw (e, ==_symm q r, e) (omega arith)
    ]

    by_references :
        0 < refcount_of (h r)
        → (q : ℕ)
        → references (update h r (some (record raw { refcount = raw.refcount + 1 })) q)
          ≡ references (h q) + one_if (q == r)
    by_references positive q = elim (Bool-cases (r == q)) [
      | inl e ↦
          let same = (==_iff r q).0 e in
          rw (e, ← same, there, ==_refl r) (ground (arith, rw there at positive))
      | inr e ↦ rw (e, ==_symm q r, e) (omega arith)
    ]

pub post_copy-Posted :
    (r : ℕ) (h : Heap) (c : Connection)
    → (raw : Raw) × (h r ≡ some raw)
    → IsPooled c
    → (h' : Heap) × (c' : Connection) × (post_copy r h c ≡ some (h', c'))
      × Copied r h h'
      × Posted r c c'
unfolding post_copy post_raw_sub
post_copy-Posted r h c (raw, there) pools =
    let (h', e, copied) = copy_raw_z-Copied r h raw there in
    let (raw', there') = copied.there in
    let (c', e', posted) = post_by-Posted raw'.priority r c pools in
    (h', c', rw (e, there', e') refl, copied, posted)
