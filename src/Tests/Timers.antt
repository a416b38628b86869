-- ===== src/Tests/Timers.antt =====
-- Two timers, one of them due, and a callback that asks for a third.
use ape_server.Prelude.{ℕ, ◌≡◌, ◌+◌, refl, some, List, [], ◌∷◌, arith, length}
use ape_server.Ticks.{
  Timer, Timers, Callback, process_tick, insert, fire_first, count_down, last_call, add_behind,
  put_behind, resume, again,
}
use ape_server.Ticks.Due.{absolute, dated, insert_due, absolute-insert}
use ape_server.Ticks.Process.{Patient}
use ape_server.Ticks.Loop.{Served, process_tick-Served}
use ape_server.Ticks.Identifiers.{Numbered, bearers}

abbrev timer : ℕ → ℕ → Timer
timer delta id = record {
  ticks_need = 5;
  delta = delta;
  times = 0;
  identifier = id;
  protect = 1;
  func = 10;
  params = 20;
}

abbrev two : Timers
two = record { timers = timer 1 0 ∷ timer 3 1 ∷ []; ntimers = 2 }

-- each call goes on and asks for one more
abbrev asking : Callback
asking t last = (last, record { msec = 2; times = 1; func = 11; params = 21 } ∷ [])

asking-Patient : Patient asking
asking-Patient t last = (omega arith, tt)

process_tick-Served_example :
    (r : Timers × List Timer) × (process_tick (length two.timers + 1) asking two ≡ some r)
    × Served asking (absolute 0 two.timers) two.ntimers r
process_tick-Served_example =
    process_tick-Served asking two asking-Patient (omega arith) (omega arith, (omega arith, tt))

two-Numbered : Numbered two.timers two.ntimers
unfolding bearers
two-Numbered id = ground arith

abbrev ticked : Timers
ticked = record {
  timers =
      record (timer 1 2) { ticks_need = 2; delta = 2; times = 1; func = 11; params = 21 }
      ∷ timer 1 1
      ∷ timer 2 0
      ∷ [];
  ntimers = 3;
}

process_tick-two : process_tick 3 asking two ≡ some (ticked, timer 1 0 ∷ [])
unfolding process_tick insert count_down last_call put_behind again fire_first resume add_behind
process_tick-two = refl

absolute-insert_example :
    absolute 100 (insert (timer 2 9) two.timers)
    ≡ insert_due (dated 100 (timer 2 9)) (absolute 100 two.timers)
absolute-insert_example = absolute-insert 100 (timer 2 9) two.timers
