-- ===== src/Raw/Listing.antt =====
-- What send_raws writes for the raws of the two pools.
use ape_server.Prelude.{
  ℕ, suc, ◌+◌, ◌<◌, ◌≡◌, ◌∙◌, refl, sym, ap₂, Bool, true, false, Option, none, some, List, [], ◌∷◌,
  ◌++◌, map, append_assoc, append-nil, arith, ◌==◌, replicate, one_if, count, count-append, subst,
  Option-cases, inl, inr,
}
use ape_server.Prelude.Text.{CString, codes}
use ape_server.Sock.Say.{Out, say, Said, say-Said, Said-refl, Said-trans}
use ape_server.Sock.Stream.{IsSocket}
use ape_server.Raw.Heap.{Heap, references, content_of, Owns, free_raw-Owns}
use ape_server.Raw.Send.{◌>>=◌, say_pad, separate, has_raw, first_cell, send_one, send_low}

abbrev pub pad_text : Option CString → CString
pad_text none = []
pad_text (some p) = p

-- the items with "," between them, and "]" and the pad behind the last
unfoldable pub listing : Option CString → List CString → CString
listing pad [] = []
listing pad (c ∷ []) = c ++ (codes "]" ++ pad_text pad)
listing pad (c ∷ d ∷ cs) = c ++ (codes "," ++ listing pad (d ∷ cs))

-- what stands behind an item
abbrev pub separator : Bool → Option CString → CString
separator true pad = codes ","
separator false pad = codes "]" ++ pad_text pad

abbrev pub nonempty {ℓ} : {A : Type ℓ} → List A → Bool
nonempty [] = false
nonempty (x ∷ xs) = true

pub listing-cons :
    (pad : Option CString) (c : CString) (cs : List CString)
    → listing pad (c ∷ cs) ≡ (c ++ separator (nonempty cs) pad) ++ listing pad cs
unfolding listing
listing-cons pad c [] = sym (append-nil _)
listing-cons pad c (d ∷ cs) = sym (append_assoc c (codes ",") (listing pad (d ∷ cs)))

separate-Said :
    (more : Bool) (pad : Option CString) (o : Out)
    → IsSocket o.socket
    → Said o (separator more pad) (separate more pad o)
unfolding separate say_pad
separate-Said true pad o v = say-Said (codes ",") o v
separate-Said false none o v = say-Said (codes "]") o v
separate-Said false (some p) o v =
    let s = say-Said (codes "]") o v in Said-trans s (say-Said p (say (codes "]") o) s.valid)

-- What a walk leaves of the heap: each raw has lost the references of the list, and those that are
-- left have kept their contents.
pub record Released (h : Heap) (rs : List ℕ) (h' : Heap) : Type 0 where
  pub lost : (q : ℕ) → references (h' q) + count q rs ≡ references (h q)
  pub kept : (q : ℕ) → 0 < references (h' q) → content_of h' q ≡ content_of h q

pub Released-refl : (h : Heap) → Released h [] h
unfolding count
Released-refl h = record { lost = λ q. omega arith; kept = λ q p. refl }

pub Released-trans :
    {h h' h'' : Heap} (rs qs : List ℕ)
    → Released h rs h'
    → Released h' qs h''
    → Released h (rs ++ qs) h''
Released-trans rs qs a b = record {
  lost = λ q. omega (arith, a.lost q, b.lost q, count-append q rs qs);
  kept = λ q p. b.kept q p ∙ a.kept q (omega (arith, b.lost q));
}

pub owned_there : (r : ℕ) (rs : List ℕ) (h : Heap) → Owns h (r ∷ rs) → h r ≡ none → ⊥
unfolding count
owned_there r rs h own gone = ground (arith, own r, gone)

count-one : (q r : ℕ) → count q (r ∷ []) ≡ one_if (q == r)
unfolding count
count-one q r = omega arith

pub map-congr :
    (f g : ℕ → CString) (rs : List ℕ) → ((q : ℕ) → 0 < count q rs → f q ≡ g q) → map f rs ≡ map g rs
unfolding count
map-congr f g [] same = refl
map-congr f g (r ∷ rs) same =
    ap₂ ◌∷◌ (same r (ground arith)) (map-congr f g rs (λ q h. same q (omega arith)))

-- the contents of what is left are those of before
pub map-kept :
    (h h' : Heap) (rs qs : List ℕ)
    → Owns h' rs
    → Released h qs h'
    → map (content_of h') rs ≡ map (content_of h) rs
map-kept h h' rs qs own rel =
    map-congr (content_of h') (content_of h) rs (λ q p. rel.kept q (omega (arith, own q)))

-- One raw that is owned is written, and its reference given up.
pub send_one-lem :
    (r : ℕ) (rs : List ℕ) (more : Bool) (pad : Option CString) (h : Heap) (o : Out)
    → Owns h (r ∷ rs)
    → IsSocket o.socket
    → (h' : Heap) × (o' : Out) × (send_one r more pad h o ≡ some (h', o'))
      × Said o (content_of h r ++ separator more pad) o'
      × Owns h' rs
      × Released h (r ∷ []) h'
unfolding send_one
send_one-lem r rs more pad h o own v = elim (Option-cases (h r)) [
  | inl gone ↦ absurd (owned_there r rs h own gone)
  | inr (raw, there) ↦
      let (h', run, own', lost, kept) = free_raw-Owns r rs h own in
      let said = say-Said raw.content o v in
      let said' = separate-Said more pad (say raw.content o) said.valid in
      (
        h',
        separate more pad (say raw.content o),
        rw (there, ◌>>=◌, run, ◌>>=◌),
        rw there (Said-trans said said'),
        own',
        record { lost = λ q. omega (arith, lost q, count-one q r); kept = kept },
      )
]

abbrev pub cells_of : List ℕ → ℕ → List (Option ℕ)
cells_of rs free = map some rs ++ replicate (suc free) none

-- the same cells, empty
abbrev pub blank : List ℕ → ℕ → List (Option ℕ)
blank rs free = map (λ _. none) rs ++ replicate (suc free) none

pub has_raw-cells_of :
    (rs : List ℕ) (free : ℕ) (f : ℕ → CString)
    → has_raw (first_cell (cells_of rs free)) ≡ nonempty (map f rs)
has_raw-cells_of [] free f = refl
has_raw-cells_of (r ∷ rs) free f = refl

-- What a walk of a pool comes to: the cells, the heap and the output that it ends with.
abbrev pub Writes :
    Heap → Out → List ℕ → CString → List (Option ℕ) → Option (List (Option ℕ) × Heap × Out) → Type 0
Writes h o rs text cells walk =
    (h' : Heap) × (o' : Out) × (walk ≡ some (cells, h', o')) × Said o text o' × Released h rs h'

listed :
    (more : Bool) (pad : Option CString) (c : CString) (cs' cs : List CString)
    → more ≡ nonempty cs
    → cs' ≡ cs
    → (c ++ separator more pad) ++ listing pad cs' ≡ listing pad (c ∷ cs)
listed more pad c cs' cs e same = rw (e, same) (sym (listing-cons pad c cs))

-- The walk of the low pool writes its raws, oldest first, and empties every cell.
pub send_low-Writes :
    (rs : List ℕ) (free : ℕ) (pad : Option CString) (h : Heap) (o : Out)
    → Owns h rs
    → IsSocket o.socket
    → Writes h o rs
        (listing pad (map (content_of h) rs))
        (blank rs free)
        (send_low (cells_of rs free) pad h o)
unfolding send_low listing
send_low-Writes [] free pad h o own v = (h, o, refl, Said-refl o v, Released-refl h)
send_low-Writes (r ∷ rs) free pad h o own v =
    let (h', o', run, said, own', rel) =
      send_one-lem r rs (has_raw (first_cell (cells_of rs free))) pad h o own v in
    let (h'', o'', run', said', rel') = send_low-Writes rs free pad h' o' own' said.valid in
    (
      h'',
      o'',
      rw (run, ◌>>=◌, run', ◌>>=◌),
      subst (λ t. Said o t o'')
          (listed (has_raw (first_cell (cells_of rs free))) pad (content_of h r)
            (map (content_of h') rs) (map (content_of h) rs)
            (has_raw-cells_of rs free (content_of h)) (map-kept h h' rs (r ∷ []) own' rel))
          (Said-trans said said'),
      Released-trans (r ∷ []) rs rel rel',
    )
