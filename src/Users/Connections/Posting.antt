-- ===== src/Users/Connections/Posting.antt =====
-- post_raw of src/raw.c: a raw comes to every connection with its references.
use native.Mathlib.Nat.{suc-mul}
use ape_server.Prelude.{
  ℕ, suc, ◌+◌, ◌*◌, ◌≡◌, refl, arith, some, List, [], ◌∷◌, ◌==◌, length, one_if, All,
}
use ape_server.Raw.Heap.{Heap, Raw}
use ape_server.Users.Connections.{Connection, post_raw}
use ape_server.Users.Connections.Counted.{IsPooled, refcount_of, Posted, post_copy-Posted}

-- The raw is in one cell more of each connection, of which nothing but the pools has changed.
unfoldable pub AllPosted : ℕ → List Connection → List Connection → Type 0
AllPosted r [] [] = Unit
AllPosted r (c ∷ cs) (c' ∷ cs') = Posted r c c' × AllPosted r cs cs'
AllPosted r [] (_ ∷ _) = ⊥
AllPosted r (_ ∷ _) [] = ⊥

-- The raw came to every connection of a list, and its references are as many more.
pub record Spread (r : ℕ) (h h' : Heap) (cs cs' : List Connection) : Type 0 where
  pub posted : AllPosted r cs cs'
  pub there : (raw : Raw) × (h' r ≡ some raw)
  pub references : (q : ℕ) → refcount_of (h' q) ≡ refcount_of (h q) + length cs * one_if (q == r)

times_suc : (n m : ℕ) → suc n * m ≡ m + n * m
times_suc n m = omega (arith, suc-mul n m)

-- For a raw that is on the heap, and connections whose pools hold raws from their head on with a
-- free cell behind them: post_raw meets no NULL pointer and no memory that is freed; each connection,
-- in its place, has the raw in one cell more and is otherwise as before but for its pools; the raw has
-- one reference more for each connection, and the other raws have theirs.
pub post_raw-Spread :
    (r : ℕ) (h : Heap) (cs : List Connection)
    → (raw : Raw) × (h r ≡ some raw)
    → All IsPooled cs
    → (h' : Heap) × (cs' : List Connection) × (post_raw r h cs ≡ some (h', cs'))
      × Spread r h h' cs cs'
unfolding post_raw AllPosted
post_raw-Spread r h [] there pools =
    (h, [], refl, record { posted = tt; there = there; references = λ q. omega arith })
post_raw-Spread r h (c ∷ cs) there (pool, pools) =
    let (h', c', e, copied, posted) = post_copy-Posted r h c there pool in
    let (h'', cs', e', spread) = post_raw-Spread r h' cs copied.there pools in
    (
      h'',
      c' ∷ cs',
      rw (e, e') refl,
      record {
        posted = (posted, spread.posted);
        there = spread.there;
        references = λ q. omega (
          arith,
          copied.one_more q,
          spread.references q,
          times_suc (length cs) (one_if (q == r)),
        );
      },
    )
