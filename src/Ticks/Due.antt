-- ===== src/Ticks/Due.antt =====
-- The abstract view of the timers: each with its absolute time in place of its delta.
use ape_server.Prelude.{
  ℕ, ◌+◌, ◌-◌, ◌≤◌, ◌≡◌, refl, ap, List, [], ◌∷◌, arith, leb, if◌then◌else◌, suc, length,
}
use ape_server.Ticks.{Timer, insert, delay_first}

-- The timers with their absolute times, if the first one counts from `now`.
unfoldable pub absolute : ℕ → List Timer → List Timer
absolute now [] = []
absolute now (u ∷ us) = record u { delta = now + u.delta } ∷ absolute (now + u.delta) us

abbrev pub dated : ℕ → Timer → Timer
dated now t = record t { delta = now + t.delta }

-- Insertion before the first timer that is not earlier.
unfoldable pub insert_due : Timer → List Timer → List Timer
insert_due t [] = t ∷ []
insert_due t (u ∷ us) = if leb t.delta u.delta then t ∷ u ∷ us else u ∷ insert_due t us

-- Inserted by deltas, a timer stands where its absolute time puts it: before the first timer that is
-- not earlier; and all other timers keep their absolute times.
pub absolute-insert :
    (now : ℕ) (t : Timer) (us : List Timer)
    → absolute now (insert t us) ≡ insert_due (dated now t) (absolute now us)
unfolding absolute insert insert_due
absolute-insert now t [] = refl
absolute-insert now t (u ∷ us) =
    ground (arith, absolute-insert (now + u.delta) (record t { delta = t.delta - u.delta }) us)

-- `timers->delta++` makes up for the decrement that the loop test makes at once.
pub absolute-delay_first :
    (now : ℕ) (us : List Timer) → absolute now (delay_first us) ≡ absolute (now + 1) us
unfolding absolute
absolute-delay_first now [] = refl
absolute-delay_first now (u ∷ us) =
    let e : now + (u.delta + 1) ≡ now + 1 + u.delta = omega arith in rw e

-- The timers that are due at the next tick stand in front.
unfoldable pub due : List Timer → List Timer
due [] = []
due (u ∷ us) = if leb u.delta 1 then u ∷ due us else []

unfoldable pub later : List Timer → List Timer
later [] = []
later (u ∷ us) = if leb u.delta 1 then later us else u ∷ us

pub due-insert_due : (t : Timer) (us : List Timer) → 2 ≤ t.delta → due (insert_due t us) ≡ due us
unfolding due insert_due
due-insert_due t [] h = ground arith
due-insert_due t (u ∷ us) h = ground (arith, due-insert_due t us)

pub later-insert_due :
    (t : Timer) (us : List Timer) → 2 ≤ t.delta → later (insert_due t us) ≡ insert_due t (later us)
unfolding later insert_due
later-insert_due t [] h = ground arith
later-insert_due t (u ∷ us) h = ground (arith, later-insert_due t us)

pub length-due : (us : List Timer) → length (due us) ≤ length us
unfolding due
length-due [] = omega arith
length-due (u ∷ us) = ground (arith, length-due us)

pub length-absolute : (now : ℕ) (us : List Timer) → length (absolute now us) ≡ length us
unfolding absolute
length-absolute now [] = refl
length-absolute now (u ∷ us) = ap suc (length-absolute (now + u.delta) us)
