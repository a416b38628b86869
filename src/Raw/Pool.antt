-- ===== src/Raw/Pool.antt =====
-- A pool: cells that are allocated in blocks and linked in both directions. The blocks are only ever
-- added at the end, so a pool is the list of its cells, and a pointer into it an index; an index
-- past the end is the NULL pointer. `none` as a result is an access through NULL.
use ape_server.Prelude.{
  ℕ, zero, suc, ◌+◌, ◌≡◌, refl, ap, true, false, Option, none, some, List, [], ◌∷◌, ◌++◌, map,
  append_assoc, arith, ◌==◌, ltb, if◌then◌else◌, length, take, set, replicate, length-append,
  length-replicate,
}

-- struct _raw_pool_user
pub record Pool : Type 0 where
  pub cells : List (Option ℕ)
  pub foot : ℕ
  pub nraw : ℕ
  pub size : ℕ

unfoldable pub init_raw_pool : ℕ → List (Option ℕ)
init_raw_pool n = replicate n none

-- `ptr->next = pool`: what followed the cell `ptr` is not linked any more
unfoldable pub expend_raw_pool : ℕ → ℕ → List (Option ℕ) → List (Option ℕ)
unfolding init_raw_pool
expend_raw_pool ptr n cells = take (suc ptr) cells ++ init_raw_pool n

unfoldable pub new_pool : ℕ → Pool
unfolding init_raw_pool
new_pool n = record { cells = init_raw_pool n; foot = 0; nraw = 0; size = n }

-- `if (++pool->nraw == pool->size)`
unfoldable pub grow : Pool → Pool
unfolding expend_raw_pool
grow p =
    if p.nraw + 1 == p.size
    then record p {
      cells = expend_raw_pool p.foot 16 p.cells;
      nraw = p.nraw + 1;
      size = p.size + 16;
    }
    else record p { nraw = p.nraw + 1 }

-- `pool->rawfoot->raw = raw; pool->rawfoot = pool->rawfoot->next`
unfoldable pub put : ℕ → Pool → Option Pool
put r p =
    if ltb p.foot (length p.cells)
    then some (record p { cells = set p.cells p.foot (some r); foot = p.foot + 1 })
    else none

unfoldable pub post : ℕ → Pool → Option Pool
unfolding grow put
post r p = put r (grow p)

-- The pool holds the raws `rs`, oldest first, and has a free cell behind them.
pub record HoldsRaws (p : Pool) (rs : List ℕ) : Type 0 where
  pub free : ℕ
  pub cells : p.cells ≡ map some rs ++ replicate (suc free) none
  pub foot : p.foot ≡ length rs
  pub nraw : p.nraw ≡ length rs
  pub size : p.size ≡ length rs + suc free

pub new_pool-HoldsRaws : (n : ℕ) → HoldsRaws (new_pool (suc n)) []
unfolding new_pool
new_pool-HoldsRaws n = record {
  free = n;
  cells = refl;
  foot = refl;
  nraw = refl;
  size = omega arith;
}

length-cells : (rs : List ℕ) (n : ℕ) → length (map some rs ++ replicate n none) ≡ length rs + n
length-cells [] n = omega (arith, length-replicate {A = Option ℕ} n none)
length-cells (r ∷ rs) n = omega (arith, length-cells rs n)

take-cells :
    (rs : List ℕ) → take (suc (length rs)) (map some rs ++ none ∷ []) ≡ map some rs ++ none ∷ []
take-cells [] = refl
take-cells (r ∷ rs) = rw (take-cells rs)

set-cells :
    (rs : List ℕ) (r : ℕ) (rest : List (Option ℕ))
    → set (map some rs ++ none ∷ rest) (length rs) (some r) ≡ map some (rs ++ r ∷ []) ++ rest
set-cells [] r rest = refl
set-cells (q ∷ rs) r rest = rw (set-cells rs r rest)

-- Between the count of the raw and its place, there are two free cells at least.
record IsGrown (p : Pool) (rs : List ℕ) : Type 0 where
  free : ℕ
  cells : p.cells ≡ map some rs ++ none ∷ replicate (suc free) none
  foot : p.foot ≡ length rs
  nraw : p.nraw ≡ length rs + 1
  size : p.size ≡ length rs + 1 + suc free

grow_cells :
    (rs : List ℕ) (cells : List (Option ℕ)) (foot : ℕ)
    → cells ≡ map some rs ++ none ∷ []
    → foot ≡ length rs
    → expend_raw_pool foot 16 cells ≡ map some rs ++ none ∷ replicate 16 none
unfolding expend_raw_pool
grow_cells rs cells foot e f =
    rw (e, f, take-cells rs) (append_assoc (map some rs) (none ∷ []) (replicate 16 none))

grow-IsGrown :
    (p : Pool) (rs : List ℕ) (free : ℕ)
    → p.cells ≡ map some rs ++ replicate (suc free) none
    → p.foot ≡ length rs
    → p.nraw ≡ length rs
    → p.size ≡ length rs + suc free
    → IsGrown (grow p) rs
unfolding grow
grow-IsGrown p rs zero cells foot nraw size =
    let full : (p.nraw + 1 == p.size) ≡ true = ground arith in
    rw full (record {
      free = 15;
      cells = grow_cells rs p.cells p.foot cells foot;
      foot = foot;
      nraw = omega arith;
      size = omega arith;
    })
grow-IsGrown p rs (suc free) cells foot nraw size =
    let room : (p.nraw + 1 == p.size) ≡ false = ground arith in
    rw room
      (record { free = free; cells = cells; foot = foot; nraw = omega arith; size = omega arith })

put-HoldsRaws :
    (r : ℕ) (p : Pool) (rs : List ℕ)
    → IsGrown p rs
    → (q : Pool) × (put r p ≡ some q) × HoldsRaws q (rs ++ r ∷ [])
unfolding put
put-HoldsRaws r p rs h =
    let inside : ltb p.foot (length p.cells) ≡ true =
      ground (arith, ap length h.cells, h.foot, length-cells rs (suc (suc h.free))) in
    (
      record p { cells = set p.cells p.foot (some r); foot = p.foot + 1 },
      rw inside,
      record {
        free = h.free;
        cells = rw (h.cells, h.foot) (set-cells rs r (replicate (suc h.free) none));
        foot = omega (arith, h.foot, length-append rs (r ∷ []));
        nraw = omega (arith, h.nraw, length-append rs (r ∷ []));
        size = omega (arith, h.size, length-append rs (r ∷ []));
      },
    )

-- On a pool that holds raws and has a free cell behind them, a post never meets a NULL pointer;
-- the raw is then behind the others, with a free cell behind it.
pub post-HoldsRaws :
    (r : ℕ) (p : Pool) (rs : List ℕ)
    → HoldsRaws p rs
    → (q : Pool) × (post r p ≡ some q) × HoldsRaws q (rs ++ r ∷ [])
unfolding post
post-HoldsRaws r p rs h =
    put-HoldsRaws r (grow p) rs (grow-IsGrown p rs h.free h.cells h.foot h.nraw h.size)
