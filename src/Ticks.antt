-- ===== src/Ticks.antt =====
-- src/ticks.c: the timers of the server, kept in the order of their times, each with the number of
-- ticks that it is behind the one before it.
-- Deltas are natural numbers: `--timers->delta <= 0` is then `delta <= 1` before the decrement, and
-- a delta that falls to -1 is that of the timer which fires and is freed.
pub mod Due
pub mod Process
pub mod Loop
pub mod Delete
pub mod Identifiers
use ape_server.Prelude.{
  ℕ, zero, suc, ◌+◌, ◌-◌, Bool, true, false, Option, none, some, List, [], ◌∷◌, ◌&&◌, ltb, leb,
  ◌==◌, if◌then◌else◌,
}

-- struct _ticks_callback; `func` and `params` are the pointers
pub record Timer : Type 0 where
  pub ticks_need : ℕ
  pub delta : ℕ
  pub times : ℕ
  pub identifier : ℕ
  pub protect : ℕ
  pub func : ℕ
  pub params : ℕ

-- g_ape->timers
pub record Timers : Type 0 where
  pub timers : List Timer
  pub ntimers : ℕ

-- What a callback asks for while it runs: a call of add_timeout (times is 1) or add_periodical.
pub record Request : Type 0 where
  pub msec : ℕ
  pub times : ℕ
  pub func : ℕ
  pub params : ℕ

-- A callback is given its timer and `lastcall`, which it may overwrite, and may add timers.
abbrev pub Callback : Type 0
Callback = Timer → Bool → Bool × List Request

abbrev pub new_timer : ℕ → ℕ → ℕ → ℕ → Timer
new_timer msec callback params id = record {
  ticks_need = msec;
  delta = msec;
  times = 1;
  identifier = id;
  protect = 1;
  func = callback;
  params = params;
}

-- the loop of add_timeout, with the link that follows it
unfoldable pub insert : Timer → List Timer → List Timer
insert t [] = t ∷ []
insert t (u ∷ us) =
    if leb t.delta u.delta
    then t ∷ record u { delta = u.delta - t.delta } ∷ us
    else u ∷ insert (record t { delta = t.delta - u.delta }) us

unfoldable pub add_timeout : ℕ → ℕ → ℕ → Timers → Timers
add_timeout msec callback params s = record {
  timers = insert (new_timer msec callback params s.ntimers) s.timers;
  ntimers = suc s.ntimers;
}

-- The caller writes `times` through the pointer that add_timeout returns; nothing reads it before.
unfoldable pub add_periodical : ℕ → ℕ → ℕ → ℕ → Timers → Timers
add_periodical msec times callback params s = record {
  timers = insert (record (new_timer msec callback params s.ntimers) { times = times }) s.timers;
  ntimers = suc s.ntimers;
}

-- A request made while the timer with delta `d` is being called: the list still begins with that
-- timer, its delta is now d - 1, and when the callback is back the list goes on behind it. A timer
-- that was put in front of it is lost.
unfoldable pub put_behind : ℕ → Request → List Timer → ℕ → List Timer
put_behind d r us n =
    if leb (r.msec + 1) d
    then us
    else insert
        (record (new_timer r.msec r.func r.params n) { delta = r.msec + 1 - d; times = r.times }) us

unfoldable pub add_behind : ℕ → List Request → List Timer → ℕ → List Timer × ℕ
add_behind d [] us n = (us, n)
add_behind d (r ∷ rs) us n = add_behind d rs (put_behind d r us n) (suc n)

-- `timers->delta++` for the timer that is now first
abbrev pub delay_first : List Timer → List Timer
delay_first [] = []
delay_first (u ∷ us) = record u { delta = u.delta + 1 } ∷ us

-- the field `times` after the test of the last call, and the test
unfoldable pub count_down : Timer → Timer
count_down u = if ltb 0 u.times then record u { times = u.times - 1 } else u

unfoldable pub last_call : Timer → Bool
last_call u = ltb 0 u.times && u.times - 1 == 0

-- the new timer for one that goes on
unfoldable pub again : Timer → Timer
again u = record u { delta = u.ticks_need }

-- `if (!lastcall)`
unfoldable pub resume : Bool → Timer → List Timer → List Timer
resume last u us = if last then us else insert (again u) us

-- One round of the loop of process_tick for a first timer that is due.
unfoldable pub fire_first : Callback → Timer → List Timer → ℕ → List Timer × ℕ
fire_first call u us n =
    let u' = count_down u in
    let (last, requests) = call u' (last_call u) in
    let (rest, n') = add_behind u.delta requests us n in (delay_first (resume last u' rest), n')

-- The loop; the second result is what was called, in order. `none`: the fuel ran out.
unfoldable pub tick_loop : ℕ → Callback → List Timer → ℕ → Option (Timers × List Timer)
tick_loop zero call us n = none
tick_loop (suc fuel) call [] n = some (record { timers = []; ntimers = n }, [])
tick_loop (suc fuel) call (u ∷ us) n =
    let next = fire_first call u us n in
    let more = tick_loop fuel call next.0 next.1 in
    if leb u.delta 1
    then elim more [ none ↦ none | some (s, called) ↦ some (s, u ∷ called) ]
    else some (record { timers = record u { delta = u.delta - 1 } ∷ us; ntimers = n }, [])

unfoldable pub process_tick : ℕ → Callback → Timers → Option (Timers × List Timer)
unfolding tick_loop
process_tick fuel call s = tick_loop fuel call s.timers s.ntimers

unfoldable pub get_timer_identifier : ℕ → List Timer → Option Timer
get_timer_identifier id [] = none
get_timer_identifier id (u ∷ us) = if u.identifier == id then some u else get_timer_identifier id us

-- the loop of del_timer_identifier
unfoldable pub delete : ℕ → List Timer → List Timer
delete id [] = []
delete id (u ∷ us) = if u.identifier == id then us else u ∷ delete id us

unfoldable pub del_timer_identifier : ℕ → Timers → Timers
del_timer_identifier id s = record s { timers = delete id s.timers }

-- `none` is the -1 of an empty list
abbrev pub get_first_timer_ms : Timers → Option ℕ
get_first_timer_ms s = elim s.timers [ [] ↦ none | u ∷ us ↦ some u.delta ]
