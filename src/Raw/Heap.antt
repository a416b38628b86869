-- ===== src/Raw/Heap.antt =====
-- The raws on the heap, by address. `none` is memory that is not allocated.
use ape_server.Prelude.{
  ℕ, ◌+◌, ◌-◌, ◌≤◌, ◌<◌, ◌≡◌, Option, none, some, List, [], ◌∷◌, arith, ◌==◌, leb, if◌then◌else◌,
  update, count, ==_iff, one_if, inl, inr, Option-cases, Bool-cases, ==_refl, ==_symm,
}
use ape_server.Prelude.Text.{CString}

pub data Priority : Type 0 where
  lo hi : Priority

-- struct RAW; `len` is the length of `content` (its field `data`), and `next` is not used.
-- `refcount` is a natural number: `--refcount <= 0` is `refcount <= 1` before the decrement.
pub record Raw : Type 0 where
  pub content : CString
  pub priority : Priority
  pub refcount : ℕ

abbrev pub Heap : Type 0
Heap = ℕ → Option Raw

-- `none` is an access to memory that is not allocated.
unfoldable pub copy_raw_z : ℕ → Heap → Option Heap
copy_raw_z r h = elim (h r) [
  | none ↦ none
  | some raw ↦ some (update h r (some (record raw { refcount = raw.refcount + 1 })))
]

-- the raw is freed with its last reference
abbrev pub release : Raw → Option Raw
release raw = if leb raw.refcount 1 then none else some (record raw { refcount = raw.refcount - 1 })

unfoldable pub free_raw : ℕ → Heap → Option Heap
free_raw r h = elim (h r) [ none ↦ none | some raw ↦ some (update h r (release raw)) ]

-- how many references the raw can lose
abbrev pub references : Option Raw → ℕ
references none = 0
references (some raw) = if leb raw.refcount 1 then 1 else raw.refcount

abbrev pub content : Option Raw → CString
content none = []
content (some raw) = raw.content

abbrev pub content_of : Heap → ℕ → CString
content_of h r = content (h r)

-- Each raw of the list is allocated, with a reference for each time that it stands there.
abbrev pub Owns : Heap → List ℕ → Type 0
Owns h rs = (r : ℕ) → count r rs ≤ references (h r)

references-release : (raw : Raw) → references (release raw) + 1 ≡ references (some raw)
references-release raw = ground arith

content-release : (raw : Raw) → 0 < references (release raw) → content (release raw) ≡ raw.content
content-release raw h = ground arith

module _ (h : Heap) (r q : ℕ) (raw : Raw) (there : h r ≡ some raw) where
  references-update : references (update h r (release raw) q) + one_if (q == r) ≡ references (h q)
  references-update = elim (Bool-cases (r == q)) [
    | inl e ↦
        let same = (==_iff r q).0 e in rw (e, ← same, there, ==_refl r) (references-release raw)
    | inr e ↦ rw (e, ==_symm q r, e) (omega arith)
  ]

  content_of-update :
      0 < references (update h r (release raw) q)
      → content_of (update h r (release raw)) q ≡ content_of h q
  content_of-update left = elim (Bool-cases (r == q)) [
    | inl e ↦
        let same = (==_iff r q).0 e in rw (e, ← same, there) (content-release raw (rw e at left))
    | inr e ↦ rw e
  ]

-- The reference that the first of the list stands for is given up.
pub free_raw-Owns :
    (r : ℕ) (rs : List ℕ) (h : Heap)
    → Owns h (r ∷ rs)
    → (h' : Heap) × (free_raw r h ≡ some h')
      × Owns h' rs
      × ((q : ℕ) → references (h' q) + one_if (q == r) ≡ references (h q))
      × ((q : ℕ) → 0 < references (h' q) → content_of h' q ≡ content_of h q)
unfolding free_raw count
free_raw-Owns r rs h own = elim (Option-cases (h r)) [
  | inl gone ↦ absurd (ground (arith, own r, gone))
  | inr (raw, there) ↦ (
    update h r (release raw),
    rw (there, free_raw),
    λ q. omega (arith, own q, references-update h r q raw there),
    λ q. references-update h r q raw there,
    λ q. content_of-update h r q raw there,
  )
]
