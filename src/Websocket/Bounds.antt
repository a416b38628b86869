-- ===== src/Websocket/Bounds.antt =====
-- Where the reader writes: key.val has four bytes, frame_payload ten, and what is seen is in the
-- buffer. And what an empty frame does.
use ape_server.Prelude.{
  ℕ, ◌+◌, ◌/◌, ◌%◌, ◌≤◌, ◌<◌, ◌≡◌, refl, arith, ◌==◌, Bool-cases, Option-cases, inl, inr, Bool,
  true, false, Option, some, none, List, [], ◌∷◌, ◌++◌, length, length-append, drop,
}
use ape_server.Prelude.Text.{CString}
use ape_server.Websocket.{
  Step, ws_step_key, ws_step_start, ws_step_length, ws_step_short_length, ws_step_extended_length,
  ws_step_data, is_data, Reader, Output, header, take_key, take_length, take_short, take_extended,
  unmask, count_down, end_frame, deliver, next_byte, State, start_at, frame_end, frame_loop,
}
use ape_server.Websocket.Chunks.{feed, feed_all, fresh}

-- frame_pos is one less than the count here, -1 where a reader stays on the last byte of a frame
abbrev pub InFrame : Step → ℕ → List ℕ → Type 0
InFrame ws_step_key count key = length key < 4
InFrame ws_step_start count key = (count ≤ 1) × (key ≡ [])
InFrame ws_step_length count key = (1 ≤ count) × (count ≤ 2) × (key ≡ [])
InFrame ws_step_short_length count key = (2 ≤ count) × (count ≤ 4) × (key ≡ [])
InFrame ws_step_extended_length count key = (2 ≤ count) × (count ≤ 10) × (key ≡ [])
InFrame ws_step_data count key = length key ≡ 4

abbrev pub IsInFrame : Reader → Type 0
IsInFrame r = InFrame r.step r.frame_count r.key

abbrev Passes : Option Reader → Type 0
Passes none = Unit
Passes (some r) = IsInFrame (next_byte r)

module _ (r : Reader) (b : ℕ) where
  take_key-IsInFrame :
      r.step ≡ ws_step_key → length r.key < 4 → IsInFrame (next_byte (take_key r b))
  unfolding take_key
  take_key-IsInFrame e h = elim (Bool-cases (length r.key + 1 == 4)) [
    | inl last ↦ rw (take_key, last) (ground (arith, last, length-append r.key (b ∷ [])))
    | inr more ↦ rw (take_key, more, e) (ground (arith, more, length-append r.key (b ∷ [])))
  ]

  take_length-IsInFrame :
      r.step ≡ ws_step_length
      → InFrame ws_step_length r.frame_count r.key
      → IsInFrame (next_byte (take_length r (b % 128)))
  unfolding take_length
  take_length-IsInFrame e (lo, hi, no_key) = elim (Bool-cases (b % 128 == 126)) [
    | inl short ↦ rw (take_length, short) (omega (arith, lo), omega (arith, hi), no_key)
    | inr not_short ↦ elim (Bool-cases (b % 128 == 127)) [
      | inl long ↦ rw (take_length, not_short, long) (omega (arith, lo), omega (arith, hi), no_key)
      | inr bits ↦ rw (take_length, not_short, bits, no_key) (omega arith)
    ]
  ]

  take_short-IsInFrame :
      r.step ≡ ws_step_short_length
      → InFrame ws_step_short_length r.frame_count r.key
      → IsInFrame (next_byte (take_short r b))
  unfolding take_short
  take_short-IsInFrame e (lo, hi, no_key) = elim (Bool-cases (r.frame_count == 4)) [
    | inl last ↦ rw (take_short, last, no_key) (omega arith)
    | inr more ↦ rw (take_short, more, e) (omega (arith, lo), ground (arith, hi, more), no_key)
  ]

  take_extended-IsInFrame :
      r.step ≡ ws_step_extended_length
      → InFrame ws_step_extended_length r.frame_count r.key
      → IsInFrame (next_byte (take_extended r b))
  unfolding take_extended
  take_extended-IsInFrame e (lo, hi, no_key) = elim (Bool-cases (r.frame_count == 10)) [
    | inl last ↦ rw (take_extended, last, no_key) (omega arith)
    | inr more ↦ rw (take_extended, more, e) (omega (arith, lo), ground (arith, hi, more), no_key)
  ]

  header-Passes :
      (st : Step) → r.step ≡ st → InFrame st r.frame_count r.key → Passes (header st r b)
  unfolding header
  header-Passes ws_step_key e h = take_key-IsInFrame e h
  header-Passes ws_step_start e (hi, no_key) = (omega arith, omega (arith, hi), no_key)
  header-Passes ws_step_length e h = elim (Bool-cases (b / 128 % 2 == 0)) [
    | inl plain ↦ rw plain tt
    | inr masked ↦ rw masked (take_length-IsInFrame e h)
  ]
  header-Passes ws_step_short_length e h = take_short-IsInFrame e h
  header-Passes ws_step_extended_length e h = take_extended-IsInFrame e h
  header-Passes ws_step_data e h = rw e h

-- a state whose reader writes inside its arrays, and whose payload begins in the buffer
pub record IsBounded (s : State) : Type 0 where
  pub in_frame : IsInFrame s.reader
  pub in_buffer : s.data_pos ≤ length s.seen

frame_end-IsBounded :
    (seen : List ℕ) (c : ℕ) (rest : List ℕ) (r : Reader) (payload : CString)
    (more : State × List Output) (d : List Output × Bool)
    → deliver (r.start % 16) payload ≡ d
    → IsBounded more.0
    → IsBounded (frame_end seen c rest r payload more).0
unfolding frame_end
frame_end-IsBounded seen c rest r payload more (out, true) e h =
    rw (frame_end, e) (record { in_frame = (omega arith, refl); in_buffer = omega arith })
frame_end-IsBounded seen c [] r payload more (out, false) e h =
    rw (frame_end, e) (record { in_frame = (omega arith, refl); in_buffer = omega arith })
frame_end-IsBounded seen c (b ∷ rest) r payload (s, more) (out, false) e h = rw (frame_end, e) h

in_data : (r : Reader) → is_data r.step ≡ true → IsInFrame r → length r.key ≡ 4
in_data r = by_step r.step
  where
    by_step : (st : Step) → is_data st ≡ true → InFrame st r.frame_count r.key → length r.key ≡ 4
    by_step ws_step_data e h = h
    by_step ws_step_key e h = cc
    by_step ws_step_start e h = cc
    by_step ws_step_length e h = cc
    by_step ws_step_short_length e h = cc
    by_step ws_step_extended_length e h = cc

to_data :
    (st : Step) (count : ℕ) (key : List ℕ)
    → is_data st ≡ true
    → length key ≡ 4
    → InFrame st count key
to_data ws_step_data count key e h = h
to_data ws_step_key count key e h = cc
to_data ws_step_start count key e h = cc
to_data ws_step_length count key e h = cc
to_data ws_step_short_length count key e h = cc
to_data ws_step_extended_length count key e h = cc

frame_loop-IsBounded :
    (bs seen : List ℕ) (data_pos : ℕ) (r : Reader)
    → IsInFrame r
    → data_pos ≤ length seen
    → IsBounded (frame_loop seen bs data_pos r).0
unfolding frame_loop
frame_loop-IsBounded [] seen data_pos r f h = record { in_frame = f; in_buffer = h }
frame_loop-IsBounded (b ∷ bs) seen data_pos r f h = elim (Bool-cases (is_data r.step)) [
  | inr e ↦ elim (Option-cases (header r.step r b)) [
    | inl plain ↦ rw (frame_loop, e, plain) (record { in_frame = f; in_buffer = h })
    | inr (r', run) ↦
        rw (frame_loop, e, run)
          (frame_loop-IsBounded bs (seen ++ b ∷ []) data_pos (next_byte r')
            (rw run at (header-Passes r b r.step refl f))
            (omega (arith, h, length-append seen (b ∷ []))))
  ]
  | inl e ↦
      let c = unmask r b in
      let r' = count_down r in
      let within : start_at data_pos (length seen) ≤ length seen = ground (arith, h) in
      elim (Bool-cases (r'.extended_length == 0)) [
        | inr more ↦
            rw (frame_loop, e, more)
              (frame_loop-IsBounded bs (seen ++ c ∷ []) (start_at data_pos (length seen))
                (next_byte r') (to_data r.step (r.frame_count + 1) r.key e (in_data r e f))
                (omega (arith, within, length-append seen (c ∷ []))))
        | inl last ↦
            rw (frame_loop, e, last)
              (frame_end-IsBounded seen c bs r'
                (drop (start_at data_pos (length seen)) (seen ++ c ∷ []))
                (frame_loop (seen ++ c ∷ []) bs 0 (next_byte (end_frame r')))
                (deliver (r'.start % 16) (drop (start_at data_pos (length seen)) (seen ++ c ∷ [])))
                refl
                (frame_loop-IsBounded bs (seen ++ c ∷ []) 0 (next_byte (end_frame r'))
                  (omega arith, refl) (omega arith)))
      ]
]

feed_all-from : (reads : List CString) (s : State) → IsBounded s → IsBounded (feed_all s reads).0
unfolding feed_all feed
feed_all-from [] s h = h
feed_all-from (bs ∷ reads) s h =
    feed_all-from reads (feed s bs).0
      (frame_loop-IsBounded (s.rest ++ bs) s.seen s.data_pos s.reader h.in_frame h.in_buffer)

-- Whatever bytes a client sends, in whatever reads, the reader is in its arrays afterwards: less
-- than four bytes of a key are taken while there is one to take, a byte of a length goes to
-- frame_payload at 1 to 9, and the payload that has begun begins in the buffer.
pub feed_all-IsBounded : (reads : List CString) → IsBounded (feed_all fresh reads).0
feed_all-IsBounded reads =
    feed_all-from reads fresh (record { in_frame = (omega arith, refl); in_buffer = omega arith })
