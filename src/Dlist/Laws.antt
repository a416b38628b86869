-- ===== src/Dlist/Laws.antt =====
-- The pointer operations keep a doubly linked list and change the sequence of its cells as the
-- list operations `∷` and `remove` do.
use ape_server.Prelude.{
  ℕ, ◌<◌, ◌≡◌, ◌≢◌, refl, ap, ◌⊎◌, inl, inr, false, Option, none, some, List, [], ◌∷◌, arith, ◌==◌,
  ==_iff, if◌then◌else◌, count, remove, update, Bool-cases, subst, count-remove,
}
use ape_server.Dlist.{Dlist, empty, set_if, relink_first, push_front, unlink}

-- From the pointer `cur`, behind the cell `back`, the cells are `xs`.
abbrev pub Seg : (ℕ → Option ℕ) → (ℕ → Option ℕ) → Option ℕ → Option ℕ → List ℕ → Type 0
Seg next prev back cur [] = cur ≡ none
Seg next prev back cur (a ∷ xs) =
    (cur ≡ some a) × (prev a ≡ back) × Seg next prev (some a) (next a) xs

-- The cells in order, each once.
pub record Holds (l : Dlist) (xs : List ℕ) : Type 0 where
  pub seg : Seg l.next l.prev none l.first xs
  pub once : (a : ℕ) → count a xs < 2

pub empty-Holds : Holds empty []
unfolding count
empty-Holds = record { seg = refl; once = λ a. omega arith }

-- Writes to cells outside the sequence do not show.
module _ (next prev next' prev' : ℕ → Option ℕ) where
  Seg-frame :
      (back cur : Option ℕ) (xs : List ℕ)
      → ((b : ℕ) → 0 < count b xs → (next' b ≡ next b) × (prev' b ≡ prev b))
      → Seg next prev back cur xs
      → Seg next' prev' back cur xs
  unfolding count
  Seg-frame back cur [] same s = s
  Seg-frame back cur (a ∷ xs) same (e, p, s) = (
    e,
    ground (arith, same a),
    rw (same a (ground arith)).0 (Seg-frame (some a) (next a) xs (λ b h. same b (omega arith)) s),
  )

  Seg-after :
      (a : ℕ) (xs : List ℕ)
      → next' a ≡ next a
      → ((b : ℕ) → 0 < count b xs → (next' b ≡ next b) × (prev' b ≡ prev b))
      → Seg next prev (some a) (next a) xs
      → Seg next' prev' (some a) (next' a) xs
  Seg-after a xs n same s = rw n (Seg-frame (some a) (next a) xs same s)

module _ (next prev : ℕ → Option ℕ) where
  -- the successor of a cell stands in the sequence
  Seg-next :
      (a : ℕ) (back cur : Option ℕ) (xs : List ℕ)
      → Seg next prev back cur xs
      → 0 < count a xs
      → (next a ≡ none) ⊎ ((s : ℕ) × (next a ≡ some s) × (0 < count s xs))
  unfolding count
  Seg-next a back cur [] s h = absurd (omega arith)
  Seg-next a back cur (x ∷ []) (e, p, s) h = inl (ground arith)
  Seg-next a back cur (x ∷ y ∷ xs) (e, p, s) h = elim (Bool-cases (a == x)) [
    | inl here ↦ inr (y, ground arith, ground arith)
    | inr there ↦ elim (Seg-next a (some x) (next x) (y ∷ xs) s (ground arith)) [
      | inl last ↦ inl last
      | inr (z, n, c) ↦ inr (z, n, omega arith)
    ]
  ]

  -- the predecessor of a cell is the one before the sequence, or stands in it
  Seg-prev :
      (a : ℕ) (back cur : Option ℕ) (xs : List ℕ)
      → Seg next prev back cur xs
      → 0 < count a xs
      → ((prev a ≡ back) × (cur ≡ some a))
        ⊎ ((q : ℕ) × (prev a ≡ some q) × (0 < count q xs) × (cur ≢ some a))
  unfolding count
  Seg-prev a back cur [] s h = absurd (omega arith)
  Seg-prev a back cur (x ∷ xs) (e, p, s) h = elim (Bool-cases (a == x)) [
    | inl here ↦ inl (ground arith)
    | inr there ↦ elim (Seg-prev a (some x) (next x) xs s (ground arith)) [
      | inl (q, _) ↦ inr (x, q, ground arith, ground arith)
      | inr (z, n, c, _) ↦ inr (z, n, omega arith, ground arith)
    ]
  ]

-- the pointer to the sequence without `a`, if `a` may be its first cell
abbrev skip : ℕ → Option ℕ → Option ℕ → Option ℕ
skip a after none = none
skip a after (some c) = if a == c then after else some c

abbrev NotIn : Option ℕ → List ℕ → Type 0
NotIn none xs = Unit
NotIn (some p) xs = count p xs ≡ 0

NotIn-tail : (p : Option ℕ) (x : ℕ) (xs : List ℕ) → NotIn p (x ∷ xs) → NotIn p xs
unfolding count
NotIn-tail none x xs h = tt
NotIn-tail (some p) x xs h = omega arith

set_if-out :
    (p q : Option ℕ) (f : ℕ → Option ℕ) (xs : List ℕ)
    → NotIn p xs
    → (b : ℕ) → 0 < count b xs
    → set_if p q f b ≡ f b
set_if-out none q f xs out b h = refl
set_if-out (some p) q f xs out b h = ground (arith, ap (λ (n : ℕ). count n xs))

module _ (next prev : ℕ → Option ℕ) (a : ℕ) where
  abbrev next' : ℕ → Option ℕ
  next' = set_if (prev a) (next a) next

  abbrev prev' : ℕ → Option ℕ
  prev' = set_if (next a) (prev a) prev

  -- What follows the cell that is taken out is linked to what stood before it.
  unlink_here :
      (back : Option ℕ) (xs : List ℕ)
      → NotIn back xs
      → ((b : ℕ) → count b xs < 2)
      → prev a ≡ back
      → Seg next prev (some a) (next a) xs
      → Seg next' prev' back (next a) xs
  unfolding count
  unlink_here back [] out once p e = e
  unlink_here back (y ∷ ys) out once p (e, q, s) = (
    e,
    ground arith,
    let out' : NotIn (prev a) (y ∷ ys) = rw p out in
        Seg-after next prev next' prev' y ys
          (set_if-out (prev a) (next a) next (y ∷ ys) out' y (ground arith))
          (λ b h. (
            set_if-out (prev a) (next a) next (y ∷ ys) out' b (omega arith),
            set_if-out (next a) (prev a) prev ys (rw e (ground (arith, once y))) b h,
          ))
          s,
  )

  unlink_prev :
      (x : ℕ) (xs : List ℕ) (back cur : Option ℕ)
      → ((b : ℕ) → count b (x ∷ xs) < 2)
      → 0 < count a xs
      → Seg next prev back cur (x ∷ xs)
      → prev' x ≡ back
  unfolding count
  unlink_prev x xs back cur once h (e, p, s) =
      elim (Seg-next next prev a (some x) (next x) xs s h) [
        | inl last ↦ ground arith
        | inr (z, n, c) ↦ ground (arith, once x, ==_iff z x)
      ]

  unlink_next :
      (x : ℕ) (xs : List ℕ)
      → count x (x ∷ xs) < 2
      → 0 < count a xs
      → Seg next prev (some x) (next x) xs
      → skip a (next a) (next x) ≡ next' x
  unfolding count
  unlink_next x xs once h s = elim (Seg-prev next prev a (some x) (next x) xs s h) [
    | inl (pa, hd) ↦ ground arith
    | inr (q, pa, c, other) ↦ ground (arith, ==_iff q x)
  ]

  unlink-Seg :
      (back cur : Option ℕ) (xs : List ℕ)
      → NotIn back xs
      → ((b : ℕ) → count b xs < 2)
      → 0 < count a xs
      → Seg next prev back cur xs
      → Seg next' prev' back (skip a (next a) cur) (remove a xs)
  unfolding count remove
  unlink-Seg back cur [] out once h s = absurd (omega arith)
  unlink-Seg back cur (x ∷ xs) out once h (e, p, s) = elim (Bool-cases (a == x)) [
    | inl here ↦
        let same = (==_iff a x).0 here in
        rw (e, here)
          (unlink_here back xs (NotIn-tail back x xs out) (λ b. omega (arith, once b)) (rw same p)
            (rw same s))
    | inr there ↦
        let rest =
          unlink-Seg (some x) (next x) xs (ground (arith, once x)) (λ b. omega (arith, once b))
            (ground arith) s in
        let prev_x = unlink_prev x xs back cur (λ b. once b) (ground arith) (e, p, s) in
        rw (e, skip, there)
          (
            refl,
            prev_x,
            subst (λ c. Seg next' prev' (some x) c (remove a xs))
                (unlink_next x xs (once x) (ground arith) s) rest,
          )
  ]

unlink_first :
    (a : ℕ) (l : Dlist) (xs : List ℕ)
    → Seg l.next l.prev none l.first xs
    → 0 < count a xs
    → skip a (l.next a) l.first ≡ relink_first (l.prev a) (l.next a) l.first
unlink_first a l xs s inside = elim (Seg-prev l.next l.prev a none l.first xs s inside) [
  | inl (pa, hd) ↦ ground arith
  | inr (q, pa, c, other) ↦ ground arith
]

-- Taking a cell of a doubly linked list out keeps the list, without that cell.
pub unlink-Holds :
    (a : ℕ) (l : Dlist) (xs : List ℕ)
    → Holds l xs
    → 0 < count a xs
    → Holds (unlink a l) (remove a xs)
unfolding unlink
unlink-Holds a l xs h inside = record {
  seg =
      subst (λ c. Seg (next' l.next l.prev a) (prev' l.next l.prev a) none c (remove a xs))
        (unlink_first a l xs h.seg inside)
        (unlink-Seg l.next l.prev a none l.first xs tt h.once inside h.seg);
  once = λ b. omega (arith, h.once b, count-remove a b xs inside);
}

push_front-Seg :
    (a : ℕ) (next prev : ℕ → Option ℕ) (first : Option ℕ) (xs : List ℕ)
    → ((b : ℕ) → count b xs < 2)
    → count a xs ≡ 0
    → Seg next prev none first xs
    → Seg (update next a first) (set_if first (some a) (update prev a none)) none (some a) (a ∷ xs)
unfolding count
push_front-Seg a next prev none [] once out s = (refl, ground arith, ground arith)
push_front-Seg a next prev none (x ∷ xs) once out s = cc (s.0)
push_front-Seg a next prev (some c) [] once out s = cc
push_front-Seg a next prev (some c) (x ∷ xs) once out (e, p, s) =
    let same : c ≡ x = ground arith in
    let apart : (x == a) ≡ false = ground arith in
    (
      refl,
      ground arith,
      (
        ground arith,
        ground arith,
        Seg-after next prev (update next a (some c)) (update (update prev a none) c (some a)) x xs
            (ground arith)
            (λ b h. (
              ground (arith, ==_iff b a, ==_iff a b),
              ground (arith, once x, ==_iff b x, ==_iff a b, ==_iff x b),
            ))
            s,
      ),
    )

-- A cell that is not in a doubly linked list goes to its front.
pub push_front-Holds :
    (a : ℕ) (l : Dlist) (xs : List ℕ)
    → Holds l xs
    → count a xs ≡ 0
    → Holds (push_front a l) (a ∷ xs)
unfolding push_front count
push_front-Holds a l xs h out = record {
  seg = push_front-Seg a l.next l.prev l.first xs h.once out h.seg;
  once = λ b. ground (arith, h.once b);
}
