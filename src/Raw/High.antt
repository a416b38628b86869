-- ===== src/Raw/High.antt =====
-- The walk of the high pool, backward from its foot.
use mathlib.Core.List.{reverse, reverse-cons}
use ape_server.Prelude.{
  ℕ, suc, ◌+◌, ◌≡◌, ◌∙◌, refl, ap, Bool, ◌||◌, Option, none, some, List, [], ◌∷◌, ◌++◌, map,
  append_assoc, arith, length, set, get_elem?, replicate, length-reverse, subst, count-append,
}
use ape_server.Prelude.Text.{CString}
use ape_server.Sock.Say.{Out, Said, Said-refl, Said-trans}
use ape_server.Sock.Stream.{IsSocket}
use ape_server.Raw.Heap.{Heap, content_of, Owns}
use ape_server.Raw.Send.{has_raw, cell_before, send_one, send_high}
use ape_server.Raw.Listing.{
  listing, listing-cons, separator, nonempty, Released, Released-refl, Released-trans, send_one-lem,
  map-kept,
}

get_elem?-middle :
    (xs : List ℕ) (q : ℕ) (ys : List ℕ) (tail : List (Option ℕ))
    → get_elem? (map some (xs ++ q ∷ ys) ++ tail) (length xs) ≡ some (some q)
get_elem?-middle [] q ys tail = refl
get_elem?-middle (x ∷ xs) q ys tail = get_elem?-middle xs q ys tail

set-middle :
    (xs : List ℕ) (q : ℕ) (tail : List (Option ℕ))
    → set (map some (xs ++ q ∷ []) ++ tail) (length xs) none ≡ map some xs ++ none ∷ tail
set-middle [] q tail = refl
set-middle (x ∷ xs) q tail = ap (◌∷◌ (some x)) (set-middle xs q tail)

-- the cells behind a walk over `ks`
unfoldable pub emptied : List ℕ → List (Option ℕ) → List (Option ℕ)
emptied [] tail = tail
emptied (k ∷ ks) tail = emptied ks (none ∷ tail)

pub emptied-replicate :
    (ks : List ℕ) (n : ℕ) → emptied ks (replicate n none) ≡ replicate (length ks + n) none
unfolding emptied
emptied-replicate [] n = let e : 0 + n ≡ n = omega arith in rw e
emptied-replicate (k ∷ ks) n =
    let e : suc (length ks) + n ≡ length ks + suc n = omega arith in
    rw e (emptied-replicate ks (suc n))

-- the high pool with the newest raw `r` and the others, `ks`, newest first
abbrev pub stacked : List ℕ → List (Option ℕ) → List (Option ℕ)
stacked ks tail = map some (reverse ks) ++ tail

pub get_elem?-stacked :
    (r : ℕ) (ks : List ℕ) (tail : List (Option ℕ))
    → get_elem? (stacked (r ∷ ks) tail) (length ks) ≡ some (some r)
get_elem?-stacked r ks tail =
    rw (reverse-cons r ks) (rw (length-reverse ks) at (get_elem?-middle (reverse ks) r [] tail))

set-stacked :
    (r : ℕ) (ks : List ℕ) (tail : List (Option ℕ))
    → set (stacked (r ∷ ks) tail) (length ks) none ≡ stacked ks (none ∷ tail)
set-stacked r ks tail =
    rw (reverse-cons r ks) (rw (length-reverse ks) at (set-middle (reverse ks) r tail))

cell_before-stacked :
    (r : ℕ) (ks : List ℕ) (tail : List (Option ℕ)) (f : ℕ → CString)
    → has_raw (cell_before (stacked (r ∷ ks) tail) (length ks)) ≡ nonempty (map f ks)
cell_before-stacked r [] tail f = refl
cell_before-stacked r (q ∷ ks) tail f =
    rw (reverse-cons r (q ∷ ks), reverse-cons q ks, append_assoc (reverse ks) (q ∷ []) (r ∷ []))
      (ap has_raw (rw (length-reverse ks) at (get_elem?-middle (reverse ks) q (r ∷ []) tail)))

-- The items of the high pool; `low` says that others follow them.
unfoldable pub leading : Bool → Option CString → List CString → CString
leading low pad [] = []
leading low pad (c ∷ cs) = (c ++ separator (nonempty cs || low) pad) ++ leading low pad cs

nonempty-append : (cs ds : List CString) → nonempty (cs ++ ds) ≡ (nonempty cs || nonempty ds)
nonempty-append [] ds = refl
nonempty-append (c ∷ cs) ds = refl

pub leading-listing :
    (pad : Option CString) (cs ds : List CString)
    → leading (nonempty ds) pad cs ++ listing pad ds ≡ listing pad (cs ++ ds)
unfolding leading
leading-listing pad [] ds = refl
leading-listing pad (c ∷ cs) ds =
    rw (listing-cons pad c (cs ++ ds), nonempty-append cs ds, ← leading-listing pad cs ds)
      (append_assoc (c ++ separator (nonempty cs || nonempty ds) pad) _ _)

led :
    (more low : Bool) (pad : Option CString) (c : CString) (cs' cs : List CString)
    → more ≡ nonempty cs
    → cs' ≡ cs
    → (c ++ separator (more || low) pad) ++ leading low pad cs' ≡ leading low pad (c ∷ cs)
unfolding leading
led more low pad c cs' cs e same = rw (e, same)

Owns-left : (h : Heap) (ks later : List ℕ) → Owns h (ks ++ later) → Owns h ks
Owns-left h ks later own q = omega (arith, own q, count-append q ks later)

-- one step of the walk
send_high-suc :
    (r k : ℕ) (cells : List (Option ℕ)) (low : Bool) (pad : Option CString) (h h' : Heap)
    (o o' : Out)
    → get_elem? cells k ≡ some (some r)
    → send_one r (has_raw (cell_before cells k) || low) pad h o ≡ some (h', o')
    → send_high (suc k) cells low pad h o ≡ send_high k (set cells k none) low pad h' o'
unfolding send_high
send_high-suc r k cells low pad h h' o o' there run = rw (there, send_high, run) refl

-- The walk of the high pool writes its raws, newest first, and leaves those of `later` owned.
pub send_high-Writes :
    (ks later : List ℕ) (tail : List (Option ℕ)) (low : Bool) (pad : Option CString) (h : Heap)
    (o : Out)
    → Owns h (ks ++ later)
    → IsSocket o.socket
    → (h' : Heap) × (o' : Out) × (send_high (length ks) (stacked ks (none ∷ tail)) low pad h o
        ≡ some (emptied ks (none ∷ tail), h', o'))
      × Said o (leading low pad (map (content_of h) ks)) o'
      × Owns h' later
      × Released h ks h'
unfolding send_high leading emptied
send_high-Writes [] later tail low pad h o own v = (h, o, refl, Said-refl o v, own, Released-refl h)
send_high-Writes (r ∷ ks) later tail low pad h o own v =
    let more = has_raw (cell_before (stacked (r ∷ ks) (none ∷ tail)) (length ks)) in
    let (h', o', run, said, own', rel) = send_one-lem r (ks ++ later) (more || low) pad h o own v in
    let (h'', o'', run', said', own'', rel') =
      send_high-Writes ks later (none ∷ tail) low pad h' o' own' said.valid in
    (
      h'',
      o'',
      send_high-suc r (length ks) (stacked (r ∷ ks) (none ∷ tail)) low pad h h' o o'
            (get_elem?-stacked r ks (none ∷ tail)) run
          ∙ (ap (λ cells. send_high (length ks) cells low pad h' o')
                (set-stacked r ks (none ∷ tail))
              ∙ run'),
      subst (λ t. Said o t o'')
          (led more low pad (content_of h r) (map (content_of h') ks) (map (content_of h) ks)
            (cell_before-stacked r ks (none ∷ tail) (content_of h))
            (map-kept h h' ks (r ∷ []) (Owns-left h' ks later own') rel))
          (Said-trans said said'),
      own'',
      Released-trans (r ∷ []) ks rel rel',
    )
