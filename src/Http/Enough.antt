-- ===== src/Http/Enough.antt =====
-- process_http comes to an end: each call of itself is a line further on.
use ape_server.Prelude.{
  ℕ, zero, suc, ◌+◌, ◌-◌, ◌≤◌, ◌<◌, ◌≡◌, refl, arith, false, ◌&&◌, ◌||◌, Bool-cases, Option-cases,
  inl, inr, Option, none, some, List, [], ◌∷◌, ◌++◌, ◌==◌, if◌then◌else◌, length, drop,
}
use ape_server.Prelude.Text.{CString, codes, casecmp}
use ape_server.Strings.{seof, next_place}
use ape_server.Http.Header.{HeaderLine, c_string, head, parse_header_line}
use ape_server.Http.Fitting.{
  Fits, Later, parse_header_line-LineFits, first_line-Later, header_fields-Later, blank_line-Later,
  add_line-Fits,
}
use ape_server.Http.Request.{
  Request, Event, Method, Next, stop, again, first_line, blank_line, add_line, header_fields,
  header_line, is_complete, content, with_line, step_of, request_step, process_http, receive,
}

-- the rounds that are left
abbrev rounds : Request → ℕ
rounds r = if r.step == 0 then length r.bytes + 1 else length r.bytes - r.pos

-- A call that returns leaves what fits; one that calls itself does so nearer to the end.
abbrev Nearer : ℕ → Next → Type 0
Nearer n (stop r events) = Fits r
Nearer n (again r) = Fits r × (rounds r < n)

-- The result of a call, of any, fits.
abbrev pub Fitting : Option (Request × List Event) → Type 0
Fitting none = ⊥
Fitting (some (r, events)) = Fits r

length-c_string : (bs : List ℕ) → length (c_string bs) ≤ length bs
length-c_string [] = omega arith
length-c_string (b ∷ bs) = ground (arith, length-c_string bs)

length-drop : (n : ℕ) (bs : List ℕ) → length (drop n bs) ≤ length bs - n
length-drop zero bs = omega arith
length-drop (suc n) [] = omega arith
length-drop (suc n) (b ∷ bs) = omega (arith, length-drop n bs)

-- a line begins in the buffer and has a byte
abbrev Inside : CString → Option ℕ → Type 0
Inside s none = Unit
Inside s (some n) = (1 ≤ n) × (1 ≤ length s)

seof-Inside : (s : CString) (end : ℕ) → Inside s (seof s end)
unfolding seof
seof-Inside [] end = tt
seof-Inside (c ∷ s) end = elim (Bool-cases (c == end)) [
  | inl e ↦ rw e (omega arith, omega arith)
  | inr e ↦ rw e (further (seof s end))
]
  where
    further : (o : Option ℕ) → Inside (c ∷ s) (next_place o)
    further none = tt
    further (some n) = (omega arith, omega arith)

Later-Nearer : (size n m : ℕ) (x : Next) → Later size n x → size - n < m → Nearer m x
Later-Nearer size n m (stop r events) f l = f
Later-Nearer size n m (again r) (f, e, st, p) l = (f, rw st (omega (arith, e, p, l)))

add_line-rounds :
    (r : Request) (o : Option HeaderLine)
    → (length (add_line r o).bytes ≡ length r.bytes)
      × ((add_line r o).pos ≡ r.pos)
      × ((add_line r o).step ≡ r.step)
unfolding add_line
add_line-rounds r none = (refl, refl, refl)
add_line-rounds r (some h) = elim (Bool-cases (casecmp h.key (codes "host"))) [
  | inl e ↦ rw e (refl, refl, refl)
  | inr e ↦ rw e (refl, refl, refl)
]

header_fields-Nearer :
    (m n : ℕ) (line : CString) (r r' : Request) (method : Method)
    → (length r'.bytes ≡ length r.bytes) × (r'.pos ≡ r.pos) × (r'.step ≡ r.step)
    → Fits r'
    → (r.step == 0) ≡ false
    → length r.bytes - (r.pos + n) < m
    → Nearer m (header_fields method r' line n)
header_fields-Nearer m n line r r' method (size, pos, step) f st nearer =
    let st' : (r'.step == 0) ≡ false = rw step st in
    Later-Nearer (length r'.bytes) (r'.pos + n) m (header_fields method r' line n)
      (header_fields-Later r' n f st' method line) (omega (arith, size, pos, nearer))

header_line-Nearer :
    (r : Request) (line : CString) (n : ℕ)
    → Fits r
    → (r.step == 0) ≡ false
    → 1 ≤ n
    → r.pos < length r.bytes
    → Nearer (length r.bytes - r.pos) (header_line r line n)
unfolding header_line
header_line-Nearer r line n f st some_byte inside =
    let nearer : length r.bytes - (r.pos + n) < length r.bytes - r.pos =
      omega (arith, some_byte, inside) in
    elim (Bool-cases (n == 1 || (n == 2 && head line == 13))) [
      | inl blank ↦
          rw (header_line, blank)
            (Later-Nearer (length r.bytes) (r.pos + n) (length r.bytes - r.pos)
              (blank_line r.method r n) (blank_line-Later r n f st r.method) nearer)
      | inr field ↦
          let o = parse_header_line line in
          rw (header_line, field)
            (header_fields-Nearer (length r.bytes - r.pos) n line r (add_line r o) r.method
              (add_line-rounds r o) (add_line-Fits r o f (parse_header_line-LineFits line)) st
              nearer)
    ]

content-Nearer : (m : ℕ) (r : Request) → Fits r → Nearer m (content r)
unfolding content
content-Nearer m r f =
    elim (Bool-cases (is_complete (r.read + (length r.bytes - r.pos)) r.content_length)) [
      | inl e ↦ rw (content, e) (record { content_length = f.content_length; hlines = f.hlines })
      | inr e ↦ rw (content, e) (record { content_length = f.content_length; hlines = f.hlines })
    ]

with_line-Nearer :
    (m : ℕ) (r : Request) (g : Request → CString → ℕ → Next)
    → Fits r
    → ((n : ℕ) → 1 ≤ n → r.pos < length r.bytes → Nearer m (g r (c_string (drop r.pos r.bytes)) n))
    → Nearer m (with_line r g)
unfolding with_line
with_line-Nearer m r g f h =
    let line = c_string (drop r.pos r.bytes) in
    elim (Option-cases (seof line 10)) [
      | inl e ↦ rw (with_line, e) f
      | inr (n, e) ↦
          let inside : Inside line (some n) = rw e at (seof-Inside line 10) in
          rw (with_line, e)
            (h n inside.0 (
              omega
                (arith, inside.1, length-c_string (drop r.pos r.bytes), length-drop r.pos r.bytes)))
    ]

step_of-Nearer : (r : Request) → Fits r → Nearer (rounds r) (step_of r.step r)
unfolding step_of
step_of-Nearer r f = elim (Bool-cases (r.step == 0)) [
  | inl first ↦
      rw (step_of, first)
        (with_line-Nearer (length r.bytes + 1) r first_line f (λ n some_byte inside.
          Later-Nearer (length r.bytes) n (length r.bytes + 1)
            (first_line r (c_string (drop r.pos r.bytes)) n)
            (first_line-Later (length r.bytes) n r (c_string (drop r.pos r.bytes)) f refl)
            (omega arith)))
  | inr st ↦ elim (Bool-cases (r.step == 1)) [
    | inl e ↦
        rw (step_of, st, e)
          (with_line-Nearer (length r.bytes - r.pos) r header_line f (λ n some_byte inside.
            header_line-Nearer r (c_string (drop r.pos r.bytes)) n f st some_byte inside))
    | inr e ↦ elim (Bool-cases (r.step == 2)) [
      | inl two ↦ rw (step_of, st, e, two) (content-Nearer (length r.bytes - r.pos) r f)
      | inr other ↦ rw (step_of, st, e, other) f
    ]
  ]
]

request_step-Nearer : (r : Request) → Fits r → Nearer (rounds r) (request_step r)
unfolding request_step
request_step-Nearer r f =
    elim (Bool-cases (length r.bytes == 0 || r.error || (head (drop r.pos r.bytes) == 0))) [
      | inl e ↦ rw e f
      | inr e ↦ rw e (step_of-Nearer r f)
    ]

process_http-Fitting :
    (fuel : ℕ) (r : Request) → Fits r → rounds r < fuel → Fitting (process_http fuel r)
unfolding process_http
process_http-Fitting zero r f l = absurd (omega (arith, l))
process_http-Fitting (suc fuel) r f l =
    go (request_step r) (request_step-Nearer r f)
      (λ r' f' n. process_http-Fitting fuel r' f' (omega (arith, l, n)))
  where
    go :
        (x : Next)
        → Nearer (rounds r) x
        → ((r' : Request) → Fits r' → rounds r' < rounds r → Fitting (process_http fuel r'))
        → Fitting (elim x [ stop r' events ↦ some (r', events) | again r' ↦ process_http fuel r' ])
    go (stop r' events) n h = n
    go (again r') (f', n) h = h r' f' n

-- From a request whose fields fit, process_http returns whatever is read, and what it has stored
-- fits again: the length of the content is 1 to 51200 if it has one, no key has more than 63 bytes
-- and no value more than 1023.
pub receive-Fitting : (r : Request) (bs : List ℕ) → Fits r → Fitting (receive r bs)
unfolding receive
receive-Fitting r bs f =
    process_http-Fitting (length (r.bytes ++ bs) + 2) (record r { bytes = r.bytes ++ bs })
      (record { content_length = f.content_length; hlines = f.hlines }) (ground arith)
