-- ===== src/Ticks/Loop.antt =====
-- The loop of process_tick ends, and leaves what the abstract view says.
use ape_server.Prelude.{
  ℕ, zero, suc, ◌+◌, ◌-◌, ◌<◌, ◌≡◌, refl, ap, Bool, true, false, some, List, [], ◌∷◌, map, arith,
  leb, length, All, Bool-cases, inl, inr, ◌∙◌, sym,
}
use ape_server.Ticks.{
  Timer, Timers, Request, Callback, new_timer, insert, resume, put_behind, add_behind, delay_first,
  count_down, last_call, again, fire_first, tick_loop, process_tick,
}
use ape_server.Ticks.Due.{absolute, due, later, length-due, length-absolute}
use ape_server.Ticks.Process.{
  serve, earlier, Waits, AsksToWait, Patient, Ahead, absolute-fire_first, due-called,
}

-- Every timer that is added waits for a tick at least.
insert-Waits : (t : Timer) (us : List Timer) → Waits t → All Waits us → All Waits (insert t us)
unfolding insert
insert-Waits t [] w ws = (w, tt)
insert-Waits t (u ∷ us) w (v, vs) =
    ground (arith, insert-Waits (record t { delta = t.delta - u.delta }) us w vs)

add_behind-Waits :
    (d : ℕ) (rs : List Request) (us : List Timer) (n : ℕ)
    → All AsksToWait rs
    → All Waits us
    → All Waits (add_behind d rs us n).0
unfolding add_behind put_behind
add_behind-Waits d [] us n h w = w
add_behind-Waits d (r ∷ rs) us n (h, hs) w =
    let t : Timer = record (new_timer r.msec r.func r.params n) {
      delta = r.msec + 1 - d;
      times = r.times;
    } in
    add_behind-Waits d rs _ (suc n) hs (ground (arith, insert-Waits t us h w))

delay_first-Waits : (us : List Timer) → All Waits us → All Waits (delay_first us)
delay_first-Waits [] w = w
delay_first-Waits (u ∷ us) w = w

delay_first-Ahead : (us : List Timer) → Ahead (delay_first us)
delay_first-Ahead [] = tt
delay_first-Ahead (u ∷ us) = omega arith

resume-Waits :
    (last : Bool) (u : Timer) (us : List Timer)
    → Waits u
    → All Waits us
    → All Waits (resume last u us)
unfolding resume again
resume-Waits true u us w ws = ws
resume-Waits false u us w ws = insert-Waits (again u) us w ws

fire_first-Waits :
    (call : Callback) (u : Timer) (us : List Timer) (n : ℕ)
    → Patient call
    → Waits u
    → All Waits us
    → All Waits (fire_first call u us n).0 × Ahead (fire_first call u us n).0
unfolding fire_first
fire_first-Waits call u us n patient w ws =
    let u' = count_down u in
    let r = call u' (last_call u) in
    let rest = (add_behind u.delta r.1 us n).0 in
    (
      delay_first-Waits (resume r.0 u' rest) (
          resume-Waits r.0 u' rest (unfold count_down in ground arith)
            (add_behind-Waits u.delta r.1 us n (patient u' (last_call u)) ws)),
      delay_first-Ahead (resume r.0 u' rest),
    )

absolute-cons : (u : Timer) (us : List Timer) → absolute 0 (u ∷ us) ≡ u ∷ absolute u.delta us
unfolding absolute
absolute-cons u us = let e : 0 + u.delta ≡ u.delta = omega arith in rw e

-- A tick passes.
absolute-earlier :
    (now : ℕ) (us : List Timer) → map earlier (absolute (suc now) us) ≡ absolute now us
unfolding absolute
absolute-earlier now [] = refl
absolute-earlier now (u ∷ us) =
    let e : suc now + u.delta ≡ suc (now + u.delta) = omega arith in
    rw e (ground (arith, absolute-earlier (now + u.delta) us))

-- What the loop of process_tick leaves, as an abstract view, behind what it calls.
abbrev pub Served : Callback → List Timer → ℕ → Timers × List Timer → Type 0
Served call us n (s, fired) =
    (fired ≡ due us)
    × (absolute 0 s.timers ≡ map earlier (serve call (due us) (later us) n).0)
    × (s.ntimers ≡ (serve call (due us) (later us) n).1)

-- The first timer is due.
serve-first :
    (call : Callback) (u : Timer) (us : List Timer) (n : ℕ)
    → Patient call
    → Waits u
    → u.delta ≡ 1
    → (due (absolute 0 (u ∷ us)) ≡ u ∷ due (absolute 0 (fire_first call u us n).0))
      × (serve call (due (absolute 0 (u ∷ us))) (later (absolute 0 (u ∷ us))) n
          ≡ serve call
              (due (absolute 0 (fire_first call u us n).0))
              (later (absolute 0 (fire_first call u us n).0))
              (fire_first call u us n).1)
unfolding serve due later
serve-first call u us n patient w one =
    let now = absolute 1 us in
    let fired = absolute-fire_first call u us n patient one in
    let queue = due-called call u now n patient w in
    let cons : absolute 0 (u ∷ us) ≡ u ∷ now =
      absolute-cons u us ∙ ap (λ (d : ℕ). u ∷ absolute d us) one in
    let test : leb u.delta 1 ≡ true = ground arith in
    rw (cons, fired.0, fired.1, test, queue.0, queue.1, queue.2) (refl, refl)

Served-first :
    (call : Callback) (u : Timer) (us : List Timer) (n : ℕ) (s : Timers) (fired : List Timer)
    → Patient call
    → Waits u
    → u.delta ≡ 1
    → Served call (absolute 0 (fire_first call u us n).0) (fire_first call u us n).1 (s, fired)
    → Served call (absolute 0 (u ∷ us)) n (s, u ∷ fired)
Served-first call u us n s fired patient w one (log, timers, count) =
    let first = serve-first call u us n patient w one in
    (
      ap (◌∷◌ u) log ∙ sym first.0,
      timers ∙ ap (λ (x : List Timer × ℕ). map earlier x.0) (sym first.1),
      count ∙ ap (λ (x : List Timer × ℕ). x.1) (sym first.1),
    )

Served-wait :
    (call : Callback) (u : Timer) (us : List Timer) (n : ℕ)
    → leb u.delta 1 ≡ false
    → Served call
        (absolute 0 (u ∷ us))
        n
        (record { timers = record u { delta = u.delta - 1 } ∷ us; ntimers = n }, [])
unfolding serve due later
Served-wait call u us n wait =
    let e : u.delta ≡ suc (u.delta - 1) = ground arith in
    rw (absolute-cons u us, absolute-cons (record u { delta = u.delta - 1 }) us, wait)
      (
        refl,
        rw (ap (λ (d : ℕ). map earlier (absolute d us)) e, absolute-earlier (u.delta - 1) us),
        refl,
      )

-- The loop ends before its fuel does if the fuel exceeds the number of timers that are due.
tick_loop-Served :
    (fuel : ℕ) (call : Callback) (us : List Timer) (n : ℕ)
    → Patient call
    → Ahead us
    → All Waits us
    → length (due (absolute 0 us)) < fuel
    → (r : Timers × List Timer) × (tick_loop fuel call us n ≡ some r)
      × Served call (absolute 0 us) n r
unfolding tick_loop
tick_loop-Served zero call us n patient ahead waits enough = absurd (omega arith)
tick_loop-Served (suc fuel) call [] n patient ahead waits enough =
    unfold absolute serve due later in
    ((record { timers = []; ntimers = n }, []), refl, (refl, refl, refl))
tick_loop-Served (suc fuel) call (u ∷ us) n patient ahead (w, ws) enough =
    elim (Bool-cases (leb u.delta 1)) [
      | inl now ↦
          let one : u.delta ≡ 1 = ground arith in
          let next = fire_first call u us n in
          let ready = fire_first-Waits call u us n patient w ws in
          let first = serve-first call u us n patient w one in
          let ((s, fired), run, served) =
            tick_loop-Served fuel call next.0 next.1 patient ready.1 ready.0
              (omega (arith, ap length first.0)) in
          ((s, u ∷ fired), rw (now, run), Served-first call u us n s fired patient w one served)
      | inr wait ↦ (
        (record { timers = record u { delta = u.delta - 1 } ∷ us; ntimers = n }, []),
        rw wait,
        Served-wait call u us n wait,
      )
    ]

-- If every timer goes on after a tick at least, the first has a delta of at least 1, and the
-- callbacks ask for no timer of less than a tick, process_tick ends within as many rounds as
-- there are timers, and one more. It calls exactly the timers that are due, in order and once
-- each; afterwards the timers that were not due, those that the callbacks asked for and those
-- that go on are queued, one tick nearer.
pub process_tick-Served :
    (call : Callback) (s : Timers)
    → Patient call
    → Ahead s.timers
    → All Waits s.timers
    → (r : Timers × List Timer) × (process_tick (length s.timers + 1) call s ≡ some r)
      × Served call (absolute 0 s.timers) s.ntimers r
unfolding process_tick
process_tick-Served call s patient ahead waits =
    tick_loop-Served (length s.timers + 1) call s.timers s.ntimers patient ahead waits
      (omega (arith, length-due (absolute 0 s.timers), length-absolute 0 s.timers))
