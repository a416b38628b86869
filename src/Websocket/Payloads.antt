-- ===== src/Websocket/Payloads.antt =====
-- The masked payload, a whole frame, and a stream of frames.
use ape_server.Prelude.{
  ℕ, ◌+◌, ◌-◌, ◌%◌, ◌^◌, ◌<◌, ◌≡◌, ◌∙◌, ap, sym, refl, arith, bit_xor, ltb, Bool-cases, inl, inr,
  ◌==◌, false, some, List, [], ◌∷◌, ◌++◌, append_assoc, length, All,
}
use ape_server.Prelude.Text.{CString}
use ape_server.Websocket.{Output, ws_step_data, key_byte, deliver}
use ape_server.Websocket.View.{View, watch, view_step, delivered, output_before, followed_nil}
use ape_server.Websocket.Chunks.{fresh, feed_all, all_of, feed_all-watch}
use ape_server.Websocket.Mask.{bit_xor_twice}
use ape_server.Websocket.Client.{
  Frame, key_of, mask, encode, encode_all, expected, expected_all, Sendable, encode_length,
}
use ape_server.Websocket.Lengths.{view_of, between, watch-key, watch-encode_length}

module _ (key : List ℕ) (start : ℕ) (frame : ℕ → ℕ) where
  watch-masked :
      (count i n m b : ℕ) (body bs : CString)
      → (n + 2 ^ 64 - 1) % 2 ^ 64 ≡ m
      → (m == 0) ≡ false
      → watch
          (view_of ws_step_data count key i start frame n body)
          (bit_xor b (key_byte key (i % 4)) ∷ bs)
        ≡ watch (view_of ws_step_data (count + 1) key (i + 1) start frame m (body ++ b ∷ [])) bs
  unfolding watch view_step
  watch-masked count i n m b body bs e h =
      let more : ((n + 2 ^ 64 - 1) % 2 ^ 64 == 0) ≡ false = rw e h in
      rw (view_step, more, bit_xor_twice b (key_byte key (i % 4)))
        (followed_nil _
          ∙ ap
              (λ m'.
                watch (view_of ws_step_data (count + 1) key (i + 1) start frame m' (body ++ b ∷ []))
                  bs)
              e)

  watch-last :
      (count i b : ℕ) (body bs : CString) (out : List Output)
      → deliver (start % 16) (body ++ b ∷ []) ≡ (out, false)
      → watch
          (view_of ws_step_data count key i start frame 1 body)
          (bit_xor b (key_byte key (i % 4)) ∷ bs)
        ≡ output_before out (watch (between (i + 1) start frame) bs)
  unfolding watch view_step delivered
  watch-last count i b body bs out e =
      rw (view_step, bit_xor_twice b (key_byte key (i % 4)), e) refl

  watch-mask :
      (b : ℕ) (payload body bs : CString) (count i n : ℕ) (out : List Output)
      → length (b ∷ payload) ≡ n
      → n < 2 ^ 32
      → deliver (start % 16) (body ++ b ∷ payload) ≡ (out, false)
      → (i' : ℕ) × (watch
            (view_of ws_step_data count key i start frame n body)
            (mask key i (b ∷ payload) ++ bs)
          ≡ output_before out (watch (between i' start frame) bs))
  unfolding mask
  watch-mask b [] body bs count i n out l h e =
      (i + 1, rw (sym l) (watch-last count i b body bs out e))
  watch-mask b (c ∷ payload) body bs count i n out l h e =
      let (i', run) =
        watch-mask c payload (body ++ b ∷ []) bs (count + 1) (i + 1) (n - 1) out (omega (arith, l))
          (omega arith) (rw (append_assoc body (b ∷ []) (c ∷ payload)) e) in
      (i', watch-masked count i n (n - 1) b body _ (omega (arith, l)) (ground (arith, l)) ∙ run)

deliver-expected : (f : Frame) → Sendable f → deliver (f.start % 16) f.payload ≡ (expected f, false)
unfolding deliver expected
deliver-expected f s = elim (Bool-cases (f.start % 16 == 9)) [
  | inl ping ↦
      let small : ltb 125 (length f.payload) ≡ false =
        ground (arith, ping, rw ping at s.ping_bounded) in
      let whole : length f.payload % 128 ≡ length f.payload = ground (arith, small) in
      rw (deliver, s.no_close, ping, small, whole) refl
  | inr e ↦ elim (Bool-cases (f.start % 16 == 10)) [
    | inl pong ↦ rw (deliver, s.no_close, e, pong) refl
    | inr e' ↦ rw (deliver, s.no_close, e, e') refl
  ]
]

-- the parts of a frame, one after the other
module _ (inkey start : ℕ) (frame : ℕ → ℕ) (op k₀ k₁ k₂ k₃ : ℕ) (bs : CString)
    (out : List Output) where
  watch-parts :
      (payload : CString)
      → 0 < length payload
      → length payload < 2 ^ 32
      → deliver (op % 16) payload ≡ (out, false)
      → (inkey' : ℕ) × (frame' : ℕ → ℕ) × (watch (between inkey start frame) (
            op
            ∷ (encode_length (length payload)
                ++ (k₀ ∷ k₁ ∷ k₂ ∷ k₃ ∷ (mask (k₀ ∷ k₁ ∷ k₂ ∷ k₃ ∷ []) 0 payload ++ bs))))
          ≡ output_before out (watch (between inkey' op frame') bs))
  watch-parts [] some_byte l e = absurd (omega (arith, some_byte))
  watch-parts (b ∷ payload) some_byte l e =
      let n = length (b ∷ payload) in
      let key = k₀ ∷ k₁ ∷ k₂ ∷ k₃ ∷ [] in
      let (count, frame', at_key) = watch-encode_length inkey start op frame n _ l in
      let (inkey', at_end) =
        watch-mask key op frame' b payload [] bs (count + 1 + 1 + 1 + 1) 0 n out refl l e in
      (inkey', frame', at_key ∙ watch-key inkey op frame' n count k₀ k₁ k₂ k₃ _ ∙ at_end)

watch-encode :
    (f : Frame) (bs : CString) (inkey start : ℕ) (frame : ℕ → ℕ)
    → Sendable f
    → (inkey' : ℕ) × (frame' : ℕ → ℕ) × (watch (between inkey start frame) (encode f ++ bs)
        ≡ output_before (expected f) (watch (between inkey' f.start frame') bs))
unfolding encode
watch-encode f bs inkey start frame s =
    let n = length f.payload in
    rw (append_assoc (encode_length n) (key_of f ++ mask (key_of f) 0 f.payload) bs) (
      watch-parts inkey start frame f.start f.k₀ f.k₁ f.k₂ f.k₃ bs (expected f) f.payload
        s.some_byte s.bounded (deliver-expected f s))

watch-encode_all :
    (fs : List Frame) (inkey start : ℕ) (frame : ℕ → ℕ)
    → All Sendable fs
    → (v : View) × (watch (between inkey start frame) (encode_all fs) ≡ some (v, expected_all fs))
unfolding watch expected_all
watch-encode_all [] inkey start frame s = (between inkey start frame, refl)
watch-encode_all (f ∷ fs) inkey start frame (s, ss) =
    let (inkey', frame', first) = watch-encode f (encode_all fs) inkey start frame s in
    let (v, others) = watch-encode_all fs inkey' f.start frame' ss in
    (v, first ∙ ap (output_before (expected f)) others)

-- Frames that a client sends one after the other, none of which closes the connection, with
-- payloads of 1 to 2^32 - 1 bytes and of at most 125 in a ping, come out unmasked and in order,
-- however the stream is cut into reads: onready has each payload, and each ping is answered.
pub feed_all-encode_all :
    (fs : List Frame) (reads : List CString)
    → All Sendable fs
    → all_of reads ≡ encode_all fs
    → (feed_all fresh reads).1 ≡ expected_all fs
feed_all-encode_all fs reads s e =
    let (v, run) = watch-encode_all fs 0 0 (λ _. 0) s in
    feed_all-watch reads v (expected_all fs) (rw e run)
