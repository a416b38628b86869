-- ===== src/Raw/Whole.antt =====
-- send_list: both pools go out as one list, and are empty behind it.
use mathlib.Core.List.{reverse, reverse-reverse}
use ape_server.Prelude.{
  ℕ, zero, suc, ◌+◌, ◌<◌, ◌≡◌, ◌∙◌, refl, sym, ap, Bool, true, false, Option, none, some, List, [],
  ◌∷◌, ◌++◌, map, arith, ltb, length, replicate, length-reverse, subst, count,
}
use ape_server.Prelude.Text.{CString}
use ape_server.Sock.Say.{Out, Said, Said-trans}
use ape_server.Sock.Stream.{IsSocket}
use ape_server.Raw.Heap.{Heap, content_of, Owns}
use ape_server.Raw.Pool.{Pool, HoldsRaws}
use ape_server.Raw.Send.{◌>>=◌, Pools, reset, start_high, send_low, send_high, send_list}
use ape_server.Raw.Listing.{
  listing, nonempty, Released, Released-trans, blank, map-kept, send_low-Writes,
}
use ape_server.Raw.High.{
  emptied, emptied-replicate, stacked, leading, leading-listing, send_high-Writes,
}

pub stacked-reverse :
    (his : List ℕ) (tail : List (Option ℕ)) → stacked (reverse his) tail ≡ map some his ++ tail
stacked-reverse his tail = rw (reverse-reverse his)

-- What a walk leaves behind it: empty cells as many as there were, what it said, the heap.
record IsWritten (p : Pool) (rs later : List ℕ) (text : CString) (h : Heap) (o : Out)
    (walk : Option (List (Option ℕ) × Heap × Out)) : Type 0 where
  cells : List (Option ℕ)
  heap : Heap
  out : Out
  free : ℕ
  run : walk ≡ some (cells, heap, out)
  empty : cells ≡ replicate (suc free) none
  size : p.size ≡ suc free
  said : Said o text out
  owned : Owns heap later
  released : Released h rs heap

high_cells :
    (his : List ℕ) (free : ℕ) (cells : List (Option ℕ)) (foot : ℕ)
    → cells ≡ map some his ++ replicate (suc free) none
    → foot ≡ length his
    → (low : Bool) (pad : Option CString) (h : Heap) (o : Out)
    → send_high foot cells low pad h o
      ≡ send_high
          (length (reverse his))
          (stacked (reverse his) (replicate (suc free) none))
          low
          pad
          h
          o
high_cells his free cells foot e f low pad h o =
    rw (e, f, length-reverse his, stacked-reverse his (replicate (suc free) none))

emptied_all :
    (his : List ℕ) (free : ℕ)
    → emptied (reverse his) (replicate (suc free) none) ≡ replicate (suc (length his + free)) none
emptied_all his free =
    let e : length his + suc free ≡ suc (length his + free) = omega arith in
    rw (emptied-replicate (reverse his) (suc free), length-reverse his)
      (ap (λ n. replicate n none) e)

high_walk :
    (p : Pool) (his later : List ℕ) (low : Bool) (pad : Option CString) (h : Heap) (o : Out)
    → HoldsRaws p his
    → Owns h (reverse his ++ later)
    → IsSocket o.socket
    → IsWritten p
        (reverse his)
        later
        (leading low pad (map (content_of h) (reverse his)))
        h
        o
        (send_high p.foot p.cells low pad h o)
high_walk p his later low pad h o v own valid =
    let (h', o', run, said, own', rel) =
      send_high-Writes (reverse his) later (replicate v.free none) low pad h o own valid in
    record {
      cells = emptied (reverse his) (replicate (suc v.free) none);
      heap = h';
      out = o';
      free = length his + v.free;
      run = high_cells his v.free p.cells p.foot v.cells v.foot low pad h o ∙ run;
      empty = emptied_all his v.free;
      size = omega (arith, v.size);
      said = said;
      owned = own';
      released = rel;
    }

blank-replicate : (rs : List ℕ) (free : ℕ) → blank rs free ≡ replicate (suc (length rs + free)) none
blank-replicate [] free = let e : 0 + free ≡ free = omega arith in rw e
blank-replicate (r ∷ rs) free =
    let e : length (r ∷ rs) + free ≡ suc (length rs + free) = omega arith in
    rw (blank-replicate rs free, e)

low_walk :
    (p : Pool) (los : List ℕ) (pad : Option CString) (h : Heap) (o : Out)
    → HoldsRaws p los
    → Owns h los
    → IsSocket o.socket
    → IsWritten p los [] (listing pad (map (content_of h) los)) h o (send_low p.cells pad h o)
unfolding count
low_walk p los pad h o v own valid =
    let (h', o', run, said, rel) = send_low-Writes los v.free pad h o own valid in
    record {
      cells = blank los v.free;
      heap = h';
      out = o';
      free = length los + v.free;
      run = ap (λ cells. send_low cells pad h o) v.cells ∙ run;
      empty = blank-replicate los v.free;
      size = omega (arith, v.size);
      said = said;
      owned = λ q. omega arith;
      released = rel;
    }

reset-HoldsRaws :
    (p : Pool) (cells : List (Option ℕ)) (free : ℕ)
    → cells ≡ replicate (suc free) none
    → p.size ≡ suc free
    → HoldsRaws (reset cells p) []
reset-HoldsRaws p cells free e size = record {
  free = free;
  cells = e;
  foot = refl;
  nraw = refl;
  size = omega (arith, size);
}

pub map-append-codes : (f : ℕ → CString) (rs qs : List ℕ) → map f (rs ++ qs) ≡ map f rs ++ map f qs
map-append-codes f [] qs = refl
map-append-codes f (r ∷ rs) qs = ap (◌∷◌ (f r)) (map-append-codes f rs qs)

pub nonempty-count :
    (f : ℕ → CString) (rs : List ℕ) (n : ℕ) → n ≡ length rs → ltb 0 n ≡ nonempty (map f rs)
nonempty-count f [] n e = ground (arith, e)
nonempty-count f (r ∷ rs) n e = ground (arith, e)

pub start_high-foot {ℓ} :
    {A : Type ℓ} (p : Pool) (walk : ℕ → Option A) → 0 < p.foot → start_high p walk ≡ walk p.foot
start_high-foot {A = A} p walk = at_foot p.foot walk
  where
    at_foot :
        (k : ℕ) (f : ℕ → Option A) → 0 < k → elim k [ zero ↦ none | suc k' ↦ f (suc k') ] ≡ f k
    at_foot zero f lt = absurd (omega (arith, lt))
    at_foot (suc k) f lt = refl

-- Both pools, the list of raws that they make, and what send_list does with it.
abbrev pub waiting : List ℕ → List ℕ → List ℕ
waiting his los = reverse his ++ los

pub record IsSent (p : Pools) (rs : List ℕ) (pad : Option CString) (h : Heap) (o : Out)
    : Type 0 where
  pub pools : Pools
  pub heap : Heap
  pub out : Out
  pub run : send_list p pad h o ≡ some (pools, heap, out)
  pub low : HoldsRaws pools.low []
  pub high : HoldsRaws pools.high []
  pub nraw : pools.nraw ≡ 0
  pub said : Said o (listing pad (map (content_of h) rs)) out
  pub released : Released h rs heap

send_list-high :
    (p : Pools) (pad : Option CString) (h h' h'' : Heap) (o o' o'' : Out)
    (cells cells' : List (Option ℕ))
    → ltb 0 p.high.nraw ≡ true
    → 0 < p.high.foot
    → send_high p.high.foot p.high.cells (ltb 0 p.low.nraw) pad h o ≡ some (cells, h', o')
    → send_low p.low.cells pad h' o' ≡ some (cells', h'', o'')
    → send_list p pad h o
      ≡ some (record { low = reset cells' p.low; high = reset cells p.high; nraw = 0 }, h'', o'')
unfolding send_list
send_list-high p pad h h' h'' o o' o'' cells cells' some_high foot run run' =
    let start =
      start_high-foot p.high (λ k. send_high k p.high.cells (ltb 0 p.low.nraw) pad h o) foot
      ∙ run in
    rw (some_high, start, ◌>>=◌, run', ◌>>=◌)

send_list-low :
    (p : Pools) (pad : Option CString) (h h' : Heap) (o o' : Out) (cells : List (Option ℕ))
    → ltb 0 p.high.nraw ≡ false
    → send_low p.low.cells pad h o ≡ some (cells, h', o')
    → send_list p pad h o
      ≡ some
          (record { low = reset cells p.low; high = reset p.high.cells p.high; nraw = 0 }, h', o')
unfolding send_list
send_list-low p pad h h' o o' cells no_high run = rw (no_high, run, ◌>>=◌)

-- with raws of high priority
send_both :
    (p : Pools) (his los : List ℕ) (pad : Option CString) (h : Heap) (o : Out)
    → HoldsRaws p.high his
    → HoldsRaws p.low los
    → Owns h (waiting his los)
    → IsSocket o.socket
    → ltb 0 p.high.nraw ≡ true
    → IsSent p (waiting his los) pad h o
send_both p his los pad h o hi lo own valid some_high =
    let low = ltb 0 p.low.nraw in
    let a = high_walk p.high his los low pad h o hi own valid in
    let b = low_walk p.low los pad a.heap a.out lo a.owned a.said.valid in
    record {
      pools = record { low = reset b.cells p.low; high = reset a.cells p.high; nraw = 0 };
      heap = b.heap;
      out = b.out;
      run =
          send_list-high p pad h a.heap b.heap o a.out b.out a.cells b.cells some_high
            (ground (arith, hi.foot, hi.nraw, some_high)) a.run b.run;
      low = reset-HoldsRaws p.low b.cells b.free b.empty b.size;
      high = reset-HoldsRaws p.high a.cells a.free a.empty a.size;
      nraw = refl;
      said =
          subst (λ t. Said o t b.out)
            (both pad low (map (content_of h) (reverse his)) (map (content_of a.heap) los)
                (map (content_of h) los) (nonempty-count (content_of h) los p.low.nraw lo.nraw)
                (map-kept h a.heap los (reverse his) a.owned a.released)
              ∙ ap (listing pad) (sym (map-append-codes (content_of h) (reverse his) los)))
            (Said-trans a.said b.said);
      released = Released-trans (reverse his) los a.released b.released;
    }
  where
    both :
        (pad : Option CString) (low : Bool) (cs ds' ds : List CString)
        → low ≡ nonempty ds
        → ds' ≡ ds
        → leading low pad cs ++ listing pad ds' ≡ listing pad (cs ++ ds)
    both pad low cs ds' ds e same = rw (e, same) (leading-listing pad cs ds)

-- without
send_others :
    (p : Pools) (los : List ℕ) (pad : Option CString) (h : Heap) (o : Out)
    → HoldsRaws p.high []
    → HoldsRaws p.low los
    → Owns h los
    → IsSocket o.socket
    → IsSent p los pad h o
send_others p los pad h o hi lo own valid =
    let b = low_walk p.low los pad h o lo own valid in
    record {
      pools = record { low = reset b.cells p.low; high = reset p.high.cells p.high; nraw = 0 };
      heap = b.heap;
      out = b.out;
      run = send_list-low p pad h b.heap o b.out b.cells (ground (arith, hi.nraw)) b.run;
      low = reset-HoldsRaws p.low b.cells b.free b.empty b.size;
      high = reset-HoldsRaws p.high p.high.cells hi.free hi.cells (omega (arith, hi.size));
      nraw = refl;
      said = b.said;
      released = b.released;
    }

-- When the pools hold raws that are owned, and the socket has a descriptor, a well-formed buffer
-- and a kernel that reports no error, send_list meets no NULL pointer and no memory that is
-- freed; it says one list, the raws of high priority from the newest to the oldest and then the
-- others in order, each of them as it was; it empties the pools and gives up one reference of
-- each raw.
pub send_list-IsSent :
    (p : Pools) (his los : List ℕ) (pad : Option CString) (h : Heap) (o : Out)
    → HoldsRaws p.high his
    → HoldsRaws p.low los
    → Owns h (waiting his los)
    → IsSocket o.socket
    → IsSent p (waiting his los) pad h o
send_list-IsSent p [] los pad h o hi lo own valid = send_others p los pad h o hi lo own valid
send_list-IsSent p (r ∷ his) los pad h o hi lo own valid =
    send_both p (r ∷ his) los pad h o hi lo own valid (ground (arith, hi.nraw))
