-- ===== src/Ticks/Process.antt =====
-- process_tick against the abstract view: the timers that are due are called, in order, and each
-- of them goes back to the queue if its callback does not end it; the others come one tick nearer.
use ape_server.Prelude.{
  ℕ, suc, ◌+◌, ◌-◌, ◌≤◌, ◌≡◌, refl, ap, Bool, true, false, List, [], ◌∷◌, arith, leb, if◌then◌else◌,
  All, ◌∙◌,
}
use ape_server.Ticks.{
  Timer, Request, Callback, new_timer, resume, put_behind, add_behind, count_down, last_call, again,
  fire_first,
}
use ape_server.Ticks.Due.{
  absolute, dated, insert_due, absolute-insert, absolute-delay_first, due, later, due-insert_due,
  later-insert_due,
}

-- The requests of a callback that runs at the time 1.
unfoldable pub requested : List Request → List Timer → ℕ → List Timer × ℕ
requested [] us n = (us, n)
requested (r ∷ rs) us n =
    requested rs
      (insert_due
        (record (new_timer r.msec r.func r.params n) { delta = 1 + r.msec; times = r.times }) us)
      (suc n)

abbrev pub resume_due : Bool → Timer → List Timer → List Timer
resume_due last u us = if last then us else insert_due (dated 1 (again u)) us

-- A timer is called at the time 1.
unfoldable pub called : Callback → Timer → List Timer → ℕ → List Timer × ℕ
called call u us n =
    let u' = count_down u in
    let (last, requests) = call u' (last_call u) in
    let (rest, n') = requested requests us n in (resume_due last u' rest, n')

-- The timers of the first list are called in turn.
unfoldable pub serve : Callback → List Timer → List Timer → ℕ → List Timer × ℕ
serve call [] us n = (us, n)
serve call (u ∷ fired) us n = let r = called call u us n in serve call fired r.0 r.1

abbrev pub earlier : Timer → Timer
earlier t = record t { delta = t.delta - 1 }

-- No timer waits for less than a tick.
abbrev pub Waits : Timer → Type 0
Waits t = 1 ≤ t.ticks_need

abbrev pub AsksToWait : Request → Type 0
AsksToWait r = 1 ≤ r.msec

abbrev pub Patient : Callback → Type 0
Patient call = (t : Timer) (last : Bool) → All AsksToWait (call t last).1

abbrev pub Ahead : List Timer → Type 0
Ahead [] = Unit {0}
Ahead (u ∷ us) = 1 ≤ u.delta

absolute-put_behind :
    (r : Request) (us : List Timer) (n : ℕ)
    → AsksToWait r
    → absolute 1 (put_behind 1 r us n)
      ≡ insert_due
          (record (new_timer r.msec r.func r.params n) { delta = 1 + r.msec; times = r.times })
          (absolute 1 us)
unfolding put_behind
absolute-put_behind r us n h =
    let t : Timer = record (new_timer r.msec r.func r.params n) { times = r.times } in
    let behind : leb (r.msec + 1) 1 ≡ false = ground arith in
    let wait : r.msec + 1 - 1 ≡ r.msec = omega arith in rw (behind, wait) (absolute-insert 1 t us)

absolute-add_behind :
    (rs : List Request) (us : List Timer) (n : ℕ)
    → All AsksToWait rs
    → (absolute 1 (add_behind 1 rs us n).0 ≡ (requested rs (absolute 1 us) n).0)
      × ((add_behind 1 rs us n).1 ≡ (requested rs (absolute 1 us) n).1)
unfolding add_behind requested
absolute-add_behind [] us n h = (refl, refl)
absolute-add_behind (r ∷ rs) us n (h, hs) =
    rw (absolute-put_behind r us n h) at (absolute-add_behind rs (put_behind 1 r us n) (suc n) hs)

due-requested :
    (rs : List Request) (us : List Timer) (n : ℕ)
    → All AsksToWait rs
    → (due (requested rs us n).0 ≡ due us)
      × (later (requested rs us n).0 ≡ (requested rs (later us) n).0)
      × ((requested rs us n).1 ≡ (requested rs (later us) n).1)
unfolding requested
due-requested [] us n h = (refl, refl, refl)
due-requested (r ∷ rs) us n (h, hs) =
    let t : Timer = record (new_timer r.msec r.func r.params n) {
      delta = 1 + r.msec;
      times = r.times;
    } in
    let rest = due-requested rs (insert_due t us) (suc n) hs in
    rw
      (
        rest.0,
        rest.1,
        rest.2,
        due-insert_due t us (omega arith),
        later-insert_due t us (omega arith),
      )
      (refl, refl, refl)

absolute-resume :
    (last : Bool) (u : Timer) (us : List Timer)
    → absolute 1 (resume last u us) ≡ resume_due last u (absolute 1 us)
unfolding resume
absolute-resume true u us = refl
absolute-resume false u us = absolute-insert 1 (again u) us

-- What a call does to the timers behind it, in the abstract view.
pub absolute-fire_first :
    (call : Callback) (u : Timer) (us : List Timer) (n : ℕ)
    → Patient call
    → u.delta ≡ 1
    → (absolute 0 (fire_first call u us n).0 ≡ (called call u (absolute 1 us) n).0)
      × ((fire_first call u us n).1 ≡ (called call u (absolute 1 us) n).1)
unfolding fire_first called
absolute-fire_first call u us n patient e =
    let u' = count_down u in
    let r = call u' (last_call u) in
    let behind = absolute-add_behind r.1 us n (patient u' (last_call u)) in
    let rest = (add_behind 1 r.1 us n).0 in
    let start : add_behind u.delta r.1 us n ≡ add_behind 1 r.1 us n =
      ap (λ (d : ℕ). add_behind d r.1 us n) e in
    (
      absolute-delay_first 0 (resume r.0 u' (add_behind u.delta r.1 us n).0)
          ∙ ap (λ (x : List Timer × ℕ). absolute 1 (resume r.0 u' x.0)) start
          ∙ absolute-resume r.0 u' rest
          ∙ ap (resume_due r.0 u') behind.0,
      ap (λ (x : List Timer × ℕ). x.1) start ∙ behind.1,
    )

resume-due :
    (last : Bool) (u : Timer) (us : List Timer)
    → Waits u
    → (due (resume_due last u us) ≡ due us)
      × (later (resume_due last u us) ≡ resume_due last u (later us))
unfolding again
resume-due true u us w = (refl, refl)
resume-due false u us w = (
  due-insert_due (dated 1 (again u)) us (omega arith),
  later-insert_due (dated 1 (again u)) us (omega arith),
)

pub due-called :
    (call : Callback) (u : Timer) (us : List Timer) (n : ℕ)
    → Patient call
    → Waits u
    → (due (called call u us n).0 ≡ due us)
      × (later (called call u us n).0 ≡ (called call u (later us) n).0)
      × ((called call u us n).1 ≡ (called call u (later us) n).1)
unfolding called
due-called call u us n patient w =
    let u' = count_down u in
    let r = call u' (last_call u) in
    let x = due-requested r.1 us n (patient u' (last_call u)) in
    let y = resume-due r.0 u' (requested r.1 us n).0 (unfold count_down in ground arith) in
    (y.0 ∙ x.0, y.1 ∙ ap (resume_due r.0 u') x.1, x.2)
