-- ===== src/Ticks/Identifiers.antt =====
-- The identifiers of the timers, by which scripts delete them, are never given twice.
use ape_server.Prelude.{
  ℕ, zero, suc, ◌+◌, ◌-◌, ◌≤◌, ◌<◌, ◌≡◌, refl, Bool, true, false, Option, none, some, List, [], ◌∷◌,
  arith, leb, ◌==◌, one_if, Bool-cases, inl, inr, Option-cases, subst,
}
use ape_server.Ticks.{
  Timer, Timers, Request, Callback, new_timer, insert, resume, put_behind, add_behind, delay_first,
  count_down, last_call, again, fire_first, tick_loop, process_tick, delete, add_timeout,
  del_timer_identifier,
}

-- how many timers have an identifier
unfoldable pub bearers : ℕ → List Timer → ℕ
bearers id [] = 0
bearers id (u ∷ us) = one_if (u.identifier == id) + bearers id us

-- Each identifier has one bearer at most, and those from `n` on have none.
abbrev pub Numbered : List Timer → ℕ → Type 0
Numbered us n = (id : ℕ) → (bearers id us < 2) × (n ≤ id → bearers id us ≡ 0)

bearers-insert :
    (id : ℕ) (t : Timer) (us : List Timer)
    → bearers id (insert t us) ≡ one_if (t.identifier == id) + bearers id us
unfolding bearers insert
bearers-insert id t [] = refl
bearers-insert id t (u ∷ us) =
    ground (arith, bearers-insert id (record t { delta = t.delta - u.delta }) us)

bearers-delete-le : (id j : ℕ) (us : List Timer) → bearers id (delete j us) ≤ bearers id us
unfolding bearers delete
bearers-delete-le id j [] = omega arith
bearers-delete-le id j (u ∷ us) = ground (arith, bearers-delete-le id j us)

bearers-delay_first : (id : ℕ) (us : List Timer) → bearers id (delay_first us) ≡ bearers id us
unfolding bearers
bearers-delay_first id [] = refl
bearers-delay_first id (u ∷ us) = refl

insert-Numbered :
    (t : Timer) (us : List Timer) (n : ℕ)
    → t.identifier ≡ n
    → Numbered us n
    → Numbered (insert t us) (suc n)
insert-Numbered t us n e num id = ground (arith, bearers-insert id t us, num id)

weaken-Numbered : (us : List Timer) (n m : ℕ) → n ≤ m → Numbered us n → Numbered us m
weaken-Numbered us n m le num id = ground (arith, num id)

pub add_timeout-Numbered :
    (msec callback params : ℕ) (s : Timers)
    → Numbered s.timers s.ntimers
    → Numbered
        (add_timeout msec callback params s).timers
        (add_timeout msec callback params s).ntimers
unfolding add_timeout
add_timeout-Numbered msec callback params s num =
    insert-Numbered (new_timer msec callback params s.ntimers) s.timers s.ntimers refl num

-- While the first timer is being called, it still has its identifier.
put_behind-Numbered :
    (d : ℕ) (r : Request) (u : Timer) (us : List Timer) (n : ℕ)
    → Numbered (u ∷ us) n
    → Numbered (u ∷ put_behind d r us n) (suc n)
unfolding put_behind bearers
put_behind-Numbered d r u us n num id =
    let t : Timer = record (new_timer r.msec r.func r.params n) {
      delta = r.msec + 1 - d;
      times = r.times;
    } in
    ground (arith, bearers-insert id t us, num id)

add_behind-Numbered :
    (d : ℕ) (rs : List Request) (u : Timer) (us : List Timer) (n : ℕ)
    → Numbered (u ∷ us) n
    → Numbered (u ∷ (add_behind d rs us n).0) (add_behind d rs us n).1
unfolding add_behind
add_behind-Numbered d [] u us n num = num
add_behind-Numbered d (r ∷ rs) u us n num =
    add_behind-Numbered d rs u (put_behind d r us n) (suc n) (put_behind-Numbered d r u us n num)

resume-Numbered :
    (last : Bool) (u v : Timer) (us : List Timer) (n : ℕ)
    → v.identifier ≡ u.identifier
    → Numbered (u ∷ us) n
    → Numbered (delay_first (resume last v us)) n
unfolding resume bearers again
resume-Numbered true u v us n e num id = ground (arith, num id, bearers-delay_first id us)
resume-Numbered false u v us n e num id =
    ground
      (arith, num id, bearers-delay_first id (insert (again v) us), bearers-insert id (again v) us)

fire_first-Numbered :
    (call : Callback) (u : Timer) (us : List Timer) (n : ℕ)
    → Numbered (u ∷ us) n
    → Numbered (fire_first call u us n).0 (fire_first call u us n).1
unfolding fire_first
fire_first-Numbered call u us n num =
    let u' = count_down u in
    let r = call u' (last_call u) in
    resume-Numbered r.0 u u' (add_behind u.delta r.1 us n).0 (add_behind u.delta r.1 us n).1
      (unfold count_down in ground arith) (add_behind-Numbered u.delta r.1 u us n num)

abbrev Keeps : Option (Timers × List Timer) → Type 0
Keeps none = Unit
Keeps (some (s, fired)) = Numbered s.timers s.ntimers

tick_loop-Keeps :
    (fuel : ℕ) (call : Callback) (us : List Timer) (n : ℕ)
    → Numbered us n
    → Keeps (tick_loop fuel call us n)
unfolding tick_loop bearers
tick_loop-Keeps zero call us n num = tt
tick_loop-Keeps (suc fuel) call [] n num = num
tick_loop-Keeps (suc fuel) call (u ∷ us) n num = elim (Bool-cases (leb u.delta 1)) [
  | inl now ↦
      let next = fire_first call u us n in
      let more = tick_loop-Keeps fuel call next.0 next.1 (fire_first-Numbered call u us n num) in
      elim (Option-cases (tick_loop fuel call next.0 next.1)) [
        | inl e ↦ rw (now, e) tt
        | inr (r, e) ↦ rw (now, e) (subst Keeps e more)
      ]
  | inr wait ↦ rw wait num
]

-- Where no two timers have the same identifier and none has one that is still to be given, a tick
-- that ends keeps this, whatever the callbacks do.
pub process_tick-Numbered :
    (fuel : ℕ) (call : Callback) (s s' : Timers) (fired : List Timer)
    → process_tick fuel call s ≡ some (s', fired)
    → Numbered s.timers s.ntimers
    → Numbered s'.timers s'.ntimers
unfolding process_tick
process_tick-Numbered fuel call s s' fired run num =
    subst Keeps run (tick_loop-Keeps fuel call s.timers s.ntimers num)

-- A deleted timer's identifier is not given again.
pub del_timer_identifier-Numbered :
    (id : ℕ) (s : Timers)
    → Numbered s.timers s.ntimers
    → Numbered (del_timer_identifier id s).timers (del_timer_identifier id s).ntimers
unfolding del_timer_identifier
del_timer_identifier-Numbered id s num j = ground (arith, num j, bearers-delete-le j id s.timers)
