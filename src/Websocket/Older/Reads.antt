-- ===== src/Websocket/Older/Reads.antt =====
-- The reads of the older framing, by a reader that looks at each byte once.
use ape_server.Prelude.{
  ℕ, suc, ◌+◌, ◌≤◌, ◌≡◌, refl, ap, sym, ◌∙◌, arith, true, false, Bool-cases, inl, inr, some, List,
  [], ◌∷◌, ◌++◌, ◌==◌, ltb, length, length-append, append_assoc, append-nil,
}
use ape_server.Prelude.Text.{CString}
use ape_server.Raw.Send.{◌>>=◌}
use ape_server.Websocket.Older.{
  Buffer, Parsed, left_behind, max_buffer, process_websocket, read_more, later, feed_all,
}
use ape_server.Websocket.Older.Watched.{outside, watch, prepend, IsLooped, message_loop-IsLooped}

record IsParsed (b : Buffer) (p : Parsed) : Type 0 where
  shown :
      (more : List ℕ)
      → watch outside (b.rest ++ more) ≡ prepend p.messages (watch outside (p.buffer.rest ++ more))
  waiting : (watch outside p.buffer.rest).0 ≡ []
  goes_on : p.shut ≡ false
  shorter : p.buffer.offset + length p.buffer.rest ≤ b.offset + length b.rest

left_behind-IsParsed :
    (b : Buffer) (ms : List CString) (left : List ℕ)
    → IsLooped b.rest ms left
    → IsParsed b (left_behind b (ms, left))
left_behind-IsParsed b ms [] l = record {
  shown = l.shown;
  waiting = l.waiting;
  goes_on = refl;
  shorter = omega arith;
}
left_behind-IsParsed b ms (c ∷ cs) l = record {
  shown = l.shown;
  waiting = l.waiting;
  goes_on = refl;
  shorter = omega (arith, l.shorter);
}

watch-empty : (bs : List ℕ) → length bs ≡ 0 → (watch outside bs).0 ≡ []
unfolding watch
watch-empty [] e = refl
watch-empty (b ∷ bs) e = absurd (omega (arith, e))

process_websocket-IsParsed :
    (b : Buffer)
    → b.offset + length b.rest ≤ max_buffer
    → (p : Parsed) × (process_websocket b ≡ some p) × IsParsed b p
unfolding process_websocket
process_websocket-IsParsed b small = elim (Bool-cases (b.offset + length b.rest == 0)) [
  | inl empty ↦ (
    record { buffer = b; messages = []; shut = false },
    rw empty refl,
    record {
      shown = λ more. refl;
      waiting = watch-empty b.rest (ground (arith, empty));
      goes_on = refl;
      shorter = omega arith;
    },
  )
  | inr filled ↦
      let (ms, left, runs, l) = message_loop-IsLooped (suc (length b.rest)) b.rest (omega arith) in
      let fits : ltb max_buffer (b.offset + length b.rest) ≡ false = ground (arith, small) in
      (left_behind b (ms, left), rw (filled, fits, runs) refl, left_behind-IsParsed b ms left l)
]

abbrev pub joined : List (List ℕ) → List ℕ
joined [] = []
joined (bytes ∷ reads) = bytes ++ joined reads

feed_all-read_more :
    (bytes : List ℕ) (reads : List (List ℕ)) (b : Buffer) (p q : Parsed)
    → read_more bytes b ≡ some p
    → p.shut ≡ false
    → feed_all reads p.buffer ≡ some q
    → feed_all (bytes ∷ reads) b ≡ some (later p.messages q)
unfolding feed_all
feed_all-read_more bytes reads b p q fed goes_on runs =
    ap
      (λ r. r >>= λ p. elim p.shut [
        | true ↦ some p
        | false ↦ feed_all reads p.buffer >>= λ q. some (later p.messages q)
      ])
      fed
    ∙ ap
        (λ s. elim s [
          | true ↦ some p
          | false ↦ feed_all reads p.buffer >>= λ q. some (later p.messages q)
        ])
        goes_on
    ∙ ap (λ r. r >>= λ q. some (later p.messages q)) runs

-- Where nothing but the start of a message waits in the buffer, and the buffer with all that is read
-- stays within 502400 bytes: the reads shut nothing down, and however they cut the stream, onready is
-- called with the messages of a reader that looks at each byte once.
pub feed_all-messages :
    (reads : List (List ℕ)) (b : Buffer)
    → (watch outside b.rest).0 ≡ []
    → b.offset + length b.rest + length (joined reads) ≤ max_buffer
    → (p : Parsed) × (feed_all reads b ≡ some p)
      × (p.messages ≡ (watch outside (b.rest ++ joined reads)).0)
      × (p.shut ≡ false)
unfolding feed_all read_more
feed_all-messages [] b waiting small = (
  record { buffer = b; messages = []; shut = false },
  refl,
  rw (append-nil b.rest) (sym waiting),
  refl,
)
feed_all-messages (bytes ∷ reads) b waiting small =
    let (p, runs, parsed) =
      process_websocket-IsParsed (record { offset = b.offset; rest = b.rest ++ bytes })
        (omega (arith, small, length-append b.rest bytes, length-append bytes (joined reads))) in
    let (q, runs', messages, goes_on) = feed_all-messages reads p.buffer parsed.waiting (
      omega (
        arith,
        small,
        parsed.shorter,
        length-append b.rest bytes,
        length-append bytes (joined reads),
      )) in
    (
      later p.messages q,
      feed_all-read_more bytes reads b p q runs parsed.goes_on runs',
      ap (λ ms. p.messages ++ ms) messages
          ∙ sym (ap (λ r. r.0) (parsed.shown (joined reads)))
          ∙ ap (λ l. (watch outside l).0) (append_assoc b.rest bytes (joined reads)),
      goes_on,
    )
