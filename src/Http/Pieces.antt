-- ===== src/Http/Pieces.antt =====
-- process_http over several reads: what it has waited for makes no difference.
use ape_server.Prelude.{
  ℕ, zero, suc, ◌+◌, ◌-◌, ◌≡◌, ◌∙◌, refl, ap, sym, subst, arith, Bool, true, false, Bool-cases,
  Option-cases, inl, inr, Option, none, some, List, [], ◌∷◌, ◌++◌, append_assoc, ◌==◌, length, drop,
}
use ape_server.Prelude.Text.{CString}
use ape_server.Strings.{seof}
use ape_server.Http.Header.{c_string, head}
use ape_server.Http.Request.{
  Request, Event, Next, stop, again, is_complete, content, with_line, header_line, step_of,
  request_step, process_http, receive,
}
use ape_server.Http.Fitting.{Fits}
use ape_server.Http.Enough.{Fitting, receive-Fitting}
use ape_server.Http.Chunks.{with_more, more_of, Again}
use ape_server.Http.Kept.{Kept, header_line-Kept}
use ape_server.Http.Reads.{Numbered, is_over, request_step-more, Resumes, request_step-Resumes}

abbrev Result : Type 0
Result = Option (Request × List Event)

no_result : {x : Request × List Event} → none ≡ some x → ⊥
no_result e = cc

one_result : {x y : Request × List Event} → some x ≡ some y → x ≡ y
one_result {x = x} e = ap (λ o. elim o [ none ↦ x | some z ↦ z ]) e

silent : false ≡ true → ⊥
silent e = cc

abbrev is_silent : List Event → Bool
is_silent [] = true
is_silent (e ∷ events) = false

abbrev after : ℕ → Next → Result
after fuel x = elim x [ stop r' events ↦ some (r', events) | again r' ↦ process_http fuel r' ]

-- The fuel makes no difference, if it is enough.
same_result :
    (n m : ℕ) (r : Request) (x y : Request × List Event)
    → process_http n r ≡ some x
    → process_http m r ≡ some y
    → x ≡ y
unfolding process_http
same_result zero m r x y e f = absurd (no_result e)
same_result (suc n) zero r x y e f = absurd (no_result f)
same_result (suc n) (suc m) r x y e f = go (request_step r) e f (λ r'. same_result n m r' x y)
  where
    go :
        (s : Next)
        → after n s ≡ some x
        → after m s ≡ some y
        → ((r' : Request) → process_http n r' ≡ some x → process_http m r' ≡ some y → x ≡ y)
        → x ≡ y
    go (stop r' events) e f next = sym (one_result e) ∙ one_result f
    go (again r') e f next = next r' e f

-- what a step that goes on keeps
abbrev Keeps : List ℕ → Next → Type 0
Keeps bytes (stop r events) = Unit
Keeps bytes (again r) = (r.bytes ≡ bytes) × ((r.step == 0) ≡ false)

Kept-Keeps : (bytes : List ℕ) (x : Next) → Kept bytes x → Keeps bytes x
Kept-Keeps bytes (stop r events) k = tt
Kept-Keeps bytes (again r) k = k

request_step-Keeps : (r : Request) → (r.step == 0) ≡ false → Keeps r.bytes (request_step r)
unfolding request_step step_of with_line content
request_step-Keeps r st = elim (Bool-cases (is_over r)) [
  | inl over ↦ rw over tt
  | inr going ↦ elim (Bool-cases (r.step == 1)) [
    | inl one ↦ elim (Option-cases (seof (c_string (drop r.pos r.bytes)) 10)) [
      | inl waits ↦ rw (going, step_of, st, one, with_line, waits) tt
      | inr (n, line) ↦
          rw (going, step_of, st, one, with_line, line)
            (Kept-Keeps r.bytes (header_line r (c_string (drop r.pos r.bytes)) n)
              (header_line-Kept r (c_string (drop r.pos r.bytes)) n st))
    ]
    | inr e ↦ elim (Bool-cases (r.step == 2)) [
      | inl two ↦
          elim (Bool-cases (is_complete (r.read + (length r.bytes - r.pos)) r.content_length)) [
            | inl all ↦ rw (going, step_of, st, e, two, content, all) tt
            | inr part ↦ rw (going, step_of, st, e, two, content, part) tt
          ]
      | inr other ↦ rw (going, step_of, st, e, other) tt
    ]
  ]
]

module _ (t : CString) (text : (head t == 0) ≡ false) (r' : Request) (fine : r'.error ≡ false)
    (k : ℕ) (y : Request × List Event)
    (goes_on : process_http (suc k) (with_more r' t) ≡ some y) where
  abbrev Reached : Request → Type 0
  Reached r = (n : ℕ) × (process_http n (with_more r t) ≡ some y)

  process_http-more :
      (fuel : ℕ) (r : Request)
      → (r.step == 0) ≡ false
      → Numbered r.bytes
      → process_http fuel r ≡ some (r', [])
      → Reached r
  unfolding process_http Resumes
  process_http-more zero r st numbers e = absurd (no_result e)
  process_http-more (suc fuel) r st numbers e =
      go (request_step r) refl e (request_step-Resumes t r text st) (request_step-Keeps r st)
        (process_http-more fuel)
    where
      go :
          (x : Next)
          → request_step r ≡ x
          → after fuel x ≡ some (r', [])
          → Resumes t r x
          → Keeps r.bytes x
          → ((r₁ : Request)
              → (r₁.step == 0) ≡ false
              → Numbered r₁.bytes
              → process_http fuel r₁ ≡ some (r', [])
              → (n : ℕ) × (process_http n (with_more r₁ t) ≡ some y))
          → (n : ℕ) × (process_http n (with_more r t) ≡ some y)
      go (stop r₁ []) s e resumes k' next =
          let same : r₁ ≡ r' = ap (λ p. p.0) (one_result e) in
          elim resumes [
            | inl failed ↦ absurd (cc (sym failed ∙ ap (λ q. q.error) same ∙ fine))
            | inr eq ↦
                (suc k, ap (after k) (eq ∙ ap (λ q. request_step (with_more q t)) same) ∙ goes_on)
          ]
      go (stop r₁ (ev ∷ events)) s e resumes k' next =
          absurd (silent (ap (λ p. is_silent p.1) (one_result e)))
      go (again r₁) s e resumes (bytes, st₁) next =
          let (n, run) = next r₁ st₁ (subst Numbered (sym bytes) numbers) e in
          let goes = request_step-more t r st numbers (subst Again (sym s) tt) ∙ ap (more_of t) s in
          (suc n, ap (after n) goes ∙ run)

returned : (o : Result) → Fitting o → (r : Request) × (events : List Event) × (o ≡ some (r, events))
returned none f = absurd f
returned (some (r, events)) f = (r, events, refl)

-- Once the first line is read, it makes no difference where a request is cut. Where process_http has
-- taken some reads without an event and without an error, a further read, that does not begin with a
-- NUL, leads to what all the bytes in one read lead to. The one condition is that no line that
-- "content-length: " begins has a blank next, for its number would be read from the next line.
pub receive-append :
    (r r' : Request) (xs ys : CString)
    → Fits r
    → (r.step == 0) ≡ false
    → (head ys == 0) ≡ false
    → Numbered (r.bytes ++ xs)
    → receive r xs ≡ some (r', [])
    → r'.error ≡ false
    → receive r' ys ≡ receive r (xs ++ ys)
unfolding receive
receive-append r r' xs ys f st text numbers e fine =
    let f' : Fits r' = subst Fitting e (receive-Fitting r xs f) in
    let (s, events, later) = returned (receive r' ys) (receive-Fitting r' ys f') in
    let (s', events', whole) = returned (receive r (xs ++ ys)) (receive-Fitting r (xs ++ ys) f) in
    let r₀ = record r { bytes = r.bytes ++ xs } in
    let size : suc (length (r'.bytes ++ ys) + 1) ≡ length (r'.bytes ++ ys) + 2 = omega arith in
    let (n, run) =
      process_http-more ys text r' fine (length (r'.bytes ++ ys) + 1) (s, events)
        (ap (λ m. process_http m (with_more r' ys)) size ∙ later) (length (r.bytes ++ xs) + 2) r₀ st
        numbers e in
    let run' : process_http n (record r { bytes = r.bytes ++ (xs ++ ys) }) ≡ some (s, events) =
      subst (λ b. process_http n (record r { bytes = b }) ≡ some (s, events))
        (append_assoc r.bytes xs ys) run in
    later
    ∙ ap some (
        same_result n (length (r.bytes ++ (xs ++ ys)) + 2)
          (record r { bytes = r.bytes ++ (xs ++ ys) }) (s, events) (s', events') run' whole)
    ∙ sym whole
