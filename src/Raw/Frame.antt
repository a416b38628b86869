-- ===== src/Raw/Frame.antt =====
-- The head of the frame in which send_raws sends a list on a WebSocket: its length is that of the list.
use mathlib.Core.List.{reverse, reverse-cons}
use ape_server.Prelude.{
  ℕ, suc, ◌+◌, ◌*◌, ◌<◌, ◌≡◌, ◌∙◌, refl, ap, Bool, true, false, ◌||◌, Option, none, some, List, [],
  ◌∷◌, ◌++◌, map, arith, ltb, leb, ◌==◌, if◌then◌else◌, length, replicate, length-append,
  length-reverse, count, Option-cases, take, subst, count-append, inl, inr,
}
use ape_server.Prelude.Text.{CString, codes}
use ape_server.Raw.Heap.{Heap, content_of, Owns}
use ape_server.Raw.Pool.{Pool, HoldsRaws}
use ape_server.Raw.Send.{◌>>=◌, Pools, size_low, size_high, raws_size}
use ape_server.Raw.Listing.{listing, listing-cons, separator, nonempty, cells_of, owned_there}
use ape_server.Raw.High.{stacked, leading, leading-listing, get_elem?-stacked}
use ape_server.Raw.Whole.{waiting, start_high-foot, stacked-reverse, map-append-codes}

unfoldable pub big_endian : ℕ → CString → ℕ
big_endian n [] = n
big_endian n (b ∷ bs) = big_endian (n * 256 + b) bs

-- The length of a payload as its reader finds it (RFC 6455, 5.2): in the second byte, or behind it in
-- 2 or 8 bytes, the highest first.
unfoldable pub payload_length : CString → Option ℕ
unfolding big_endian
payload_length (op ∷ n ∷ rest) =
    if leb n 125
    then some n
    else if n == 126
    then some (big_endian 0 (take 2 rest))
    else if n == 127
    then some (big_endian 0 (take 8 rest))
    else none
payload_length _ = none

length-separator : (more : Bool) → length (separator more none) ≡ 1
length-separator true = refl
length-separator false = refl

-- an item, and what stands behind it
length-item :
    (more : Bool) (c rest : CString)
    → length ((c ++ separator more none) ++ rest) ≡ length c + 1 + length rest
length-item more c rest = omega (
  arith,
  length-append (c ++ separator more none) rest,
  length-append c (separator more none),
  length-separator more,
)

size_low-length :
    (rs : List ℕ) (free : ℕ) (h : Heap) (size : ℕ)
    → Owns h rs
    → size_low (cells_of rs free) h size
      ≡ some (size + length (listing none (map (content_of h) rs)))
unfolding size_low count
size_low-length [] free h size own = unfold listing in ap some (omega arith)
size_low-length (r ∷ rs) free h size own = elim (Option-cases (h r)) [
  | inl gone ↦ absurd (owned_there r rs h own gone)
  | inr (raw, there) ↦
      let n = length raw.content in
      let tail = listing none (map (content_of h) rs) in
      let item = length-item (nonempty (map (content_of h) rs)) raw.content tail in
      rw (listing-cons none (content_of h r) (map (content_of h) rs), there, ◌>>=◌)
        (size_low-length rs free h (size + (n + 1)) (λ q. omega (arith, own q))
          ∙ ap some (omega (arith, item)))
]

stacked-cons :
    (r : ℕ) (ks : List ℕ) (tail : List (Option ℕ))
    → stacked (r ∷ ks) tail ≡ stacked ks (some r ∷ tail)
stacked-cons r ks tail = rw (reverse-cons r ks) (map_behind (reverse ks) r tail)
  where
    map_behind :
        (xs : List ℕ) (r : ℕ) (tail : List (Option ℕ))
        → map some (xs ++ r ∷ []) ++ tail ≡ map some xs ++ some r ∷ tail
    map_behind [] r tail = refl
    map_behind (x ∷ xs) r tail = ap (◌∷◌ (some x)) (map_behind xs r tail)

size_high-length :
    (ks : List ℕ) (tail : List (Option ℕ)) (low : Bool) (h : Heap) (size : ℕ)
    → Owns h ks
    → size_high (length ks) (stacked ks tail) h size
      ≡ some (size + length (leading low none (map (content_of h) ks)))
unfolding size_high leading count
size_high-length [] tail low h size own = ap some (omega arith)
size_high-length (r ∷ ks) tail low h size own = elim (Option-cases (h r)) [
  | inl gone ↦ absurd (owned_there r ks h own gone)
  | inr (raw, there) ↦
      let n = length raw.content in
      let rest = leading low none (map (content_of h) ks) in
      let item = length-item (nonempty (map (content_of h) ks) || low) raw.content rest in
      rw (get_elem?-stacked r ks tail, size_high, there, stacked-cons r ks tail)
        (size_high-length ks (some r ∷ tail) low h (size + (n + 1)) (λ q. omega (arith, own q))
          ∙ ap some (omega (arith, item)))
]

Owns-parts : (h : Heap) (rs qs : List ℕ) → Owns h (rs ++ qs) → Owns h rs × Owns h qs
Owns-parts h rs qs own = (
  λ q. omega (arith, own q, count-append q rs qs),
  λ q. omega (arith, own q, count-append q rs qs),
)

raws_size-high :
    (p : Pools) (h : Heap) (size : ℕ)
    → (p.nraw == 0) ≡ false
    → ltb 0 p.high.nraw ≡ true
    → 0 < p.high.foot
    → size_high p.high.foot p.high.cells h 1 ≡ some size
    → raws_size p h ≡ size_low p.low.cells h size
unfolding raws_size
raws_size-high p h size e e' foot run =
    rw (e, e', start_high-foot p.high (λ k. size_high k p.high.cells h 1) foot ∙ run) refl

raws_size-low :
    (p : Pools) (h : Heap)
    → (p.nraw == 0) ≡ false
    → ltb 0 p.high.nraw ≡ false
    → raws_size p h ≡ size_low p.low.cells h 1
unfolding raws_size
raws_size-low p h e e' = rw (e, e') refl

size_of_low :
    (p : Pool) (los : List ℕ) (h : Heap) (size : ℕ)
    → HoldsRaws p los
    → Owns h los
    → size_low p.cells h size ≡ some (size + length (listing none (map (content_of h) los)))
size_of_low p los h size v own =
    ap (λ cells. size_low cells h size) v.cells ∙ size_low-length los v.free h size own

size_of_high :
    (p : Pool) (his : List ℕ) (low : Bool) (h : Heap) (size : ℕ)
    → HoldsRaws p his
    → Owns h (reverse his)
    → size_high p.foot p.cells h size
      ≡ some (size + length (leading low none (map (content_of h) (reverse his))))
size_of_high p his low h size v own = in_order p.cells p.foot v.cells v.foot
  where
    in_order :
        (cells : List (Option ℕ)) (foot : ℕ)
        → cells ≡ map some his ++ replicate (suc v.free) none
        → foot ≡ length his
        → size_high foot cells h size
          ≡ some (size + length (leading low none (map (content_of h) (reverse his))))
    in_order cells foot e f =
        rw (e, f)
          (subst
            (λ n.
              size_high n (map some his ++ replicate (suc v.free) none) h size
              ≡ some (size + length (leading low none (map (content_of h) (reverse his)))))
            (length-reverse his)
            (subst
              (λ c.
                size_high (length (reverse his)) c h size
                ≡ some (size + length (leading low none (map (content_of h) (reverse his)))))
              (stacked-reverse his (replicate (suc v.free) none))
              (size_high-length (reverse his) (replicate (suc v.free) none) low h size own)))

length-both :
    (f : ℕ → CString) (ks los : List ℕ)
    → 1
        + length (leading (nonempty (map f los)) none (map f ks))
        + length (listing none (map f los))
      ≡ suc (length (listing none (map f (ks ++ los))))
length-both f ks los = omega (
  arith,
  length-append (leading (nonempty (map f los)) none (map f ks)) (listing none (map f los)),
  ap length (leading-listing none (map f ks) (map f los)),
  ap length (ap (listing none) (map-append-codes f ks los)),
)

-- When the pools hold raws that are owned, and some at all, raws_size meets no NULL pointer and no
-- memory that is freed, and is the length of the list that send_raws sends, with its "[" and without
-- the padding.
pub raws_size-listing :
    (p : Pools) (his los : List ℕ) (h : Heap)
    → HoldsRaws p.high his
    → HoldsRaws p.low los
    → Owns h (waiting his los)
    → 0 < p.nraw
    → raws_size p h
      ≡ some (length (codes "[" ++ listing none (map (content_of h) (waiting his los))))
raws_size-listing p [] los h hi lo own some_raw =
    raws_size-low p h (ground (arith, some_raw)) (ground (arith, hi.nraw))
    ∙ size_of_low p.low los h 1 lo own
    ∙ ap some (omega arith)
raws_size-listing p (r ∷ his) los h hi lo own some_raw =
    let ks = reverse (r ∷ his) in
    let low = nonempty (map (content_of h) los) in
    let first = 1 + length (leading low none (map (content_of h) ks)) in
    let (own_high, own_low) = Owns-parts h ks los own in
    raws_size-high p h first (ground (arith, some_raw)) (ground (arith, hi.nraw))
      (omega (arith, hi.foot)) (size_of_high p.high (r ∷ his) low h 1 hi own_high)
    ∙ size_of_low p.low los h first lo own_low
    ∙ ap some (length-both (content_of h) ks los)
