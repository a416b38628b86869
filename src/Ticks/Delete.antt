-- ===== src/Ticks/Delete.antt =====
-- del_timer_identifier takes the timer out and leaves the delta of the next one as it is.
use ape_server.Prelude.{ℕ, ◌+◌, ◌≡◌, refl, ◌∙◌, List, [], ◌∷◌, ◌++◌, arith, ◌==◌, All, false}
use ape_server.Ticks.{Timer, delete}
use ape_server.Ticks.Due.{absolute, dated}

-- the time of the last of the timers
unfoldable pub last_time : ℕ → List Timer → ℕ
last_time now [] = now
last_time now (u ∷ us) = last_time (now + u.delta) us

absolute-append :
    (now : ℕ) (us vs : List Timer)
    → absolute now (us ++ vs) ≡ absolute now us ++ absolute (last_time now us) vs
unfolding absolute last_time
absolute-append now [] vs = refl
absolute-append now (u ∷ us) vs = rw (absolute-append (now + u.delta) us vs)

delete-append :
    (id : ℕ) (us : List Timer) (t : Timer) (vs : List Timer)
    → All (λ (u : Timer). (u.identifier == id) ≡ false) us
    → t.identifier ≡ id
    → delete id (us ++ t ∷ vs) ≡ us ++ vs
unfolding delete
delete-append id [] t vs others e = ground arith
delete-append id (u ∷ us) t vs (o, os) e = ground (arith, delete-append id us t vs os e)

-- The timers before the first timer with the deleted identifier keep their times; those behind
-- it, which counted from its time, count from the time of the timer before it instead, and so are
-- early by its delta.
pub absolute-delete :
    (now id : ℕ) (us : List Timer) (t : Timer) (vs : List Timer)
    → All (λ (u : Timer). (u.identifier == id) ≡ false) us
    → t.identifier ≡ id
    → (absolute now (us ++ t ∷ vs)
        ≡ absolute now us ++ dated (last_time now us) t ∷ absolute (last_time now us + t.delta) vs)
      × (absolute now (delete id (us ++ t ∷ vs))
          ≡ absolute now us ++ absolute (last_time now us) vs)
absolute-delete now id us t vs others e = (
  absolute-append now us (t ∷ vs) ∙ unfold absolute in refl,
  rw (delete-append id us t vs others e) (absolute-append now us vs),
)
