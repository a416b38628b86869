-- ===== src/Websocket/Lengths.antt =====
-- The bytes in front of a payload: the opcode, the three forms of the length, and the key.
use ape_server.Prelude.{
  ℕ, update, ◌+◌, ◌*◌, ◌-◌, ◌/◌, ◌%◌, ◌^◌, ◌<◌, ◌≡◌, ◌∙◌, ap, refl, arith, ltb, ltb→lt, Bool-cases,
  inl, inr, ◌==◌, false, some, List, [], ◌∷◌, ◌++◌, length,
}
use ape_server.Prelude.Text.{CString}
use ape_server.Websocket.{
  Step, ws_step_length, ws_step_short_length, ws_step_extended_length, is_data, header, take_key,
  take_length, take_short, take_extended, Reader, ws_step_start, ws_step_key, ws_step_data,
  next_byte,
}
use ape_server.Websocket.View.{View, watch, view_step, passed, followed_nil}
use ape_server.Websocket.Client.{encode_length}

abbrev pub view_of : Step → ℕ → List ℕ → ℕ → ℕ → (ℕ → ℕ) → ℕ → CString → View
view_of step count key inkey start frame n body = record {
  reader = record {
    step = step;
    frame_count = count;
    key = key;
    data_inkey = inkey;
    start = start;
    frame = frame;
    extended_length = n;
  };
  body = body;
}

-- between two frames; the fields that the next frame sets anew are whatever they are
abbrev pub between : ℕ → ℕ → (ℕ → ℕ) → View
between inkey start frame = view_of ws_step_start 1 [] inkey start frame 0 []

-- a byte in front of the payload
watch-header :
    (v : View) (b : ℕ) (bs : CString) (r : Reader)
    → is_data v.reader.step ≡ false
    → header v.reader.step v.reader b ≡ some r
    → watch v (b ∷ bs) ≡ watch (record { reader = next_byte r; body = v.body }) bs
unfolding watch view_step passed
watch-header v b bs r e h =
    rw (view_step, e, h) (followed_nil (watch (record { reader = next_byte r; body = v.body }) bs))

module _ (inkey start : ℕ) (frame : ℕ → ℕ) (n : ℕ) where
  watch-key_byte :
      (count : ℕ) (key : List ℕ) (b : ℕ) (bs : CString)
      → (length key + 1 == 4) ≡ false
      → watch (view_of ws_step_key count key inkey start frame n []) (b ∷ bs)
        ≡ watch (view_of ws_step_key (count + 1) (key ++ b ∷ []) inkey start frame n []) bs
  unfolding header take_key
  watch-key_byte count key b bs e =
      watch-header (view_of ws_step_key count key inkey start frame n []) b bs
        (view_of ws_step_key count (key ++ b ∷ []) inkey start frame n []).reader refl (rw e refl)

  pub watch-key :
      (count k₀ k₁ k₂ k₃ : ℕ) (bs : CString)
      → watch (view_of ws_step_key count [] inkey start frame n []) (k₀ ∷ k₁ ∷ k₂ ∷ k₃ ∷ bs)
        ≡ watch
            (view_of ws_step_data
              (count + 1 + 1 + 1 + 1)
              (k₀ ∷ k₁ ∷ k₂ ∷ k₃ ∷ [])
              0
              start
              frame
              n
              [])
            bs
  unfolding header take_key
  watch-key count k₀ k₁ k₂ k₃ bs =
      watch-key_byte count [] k₀ (k₁ ∷ k₂ ∷ k₃ ∷ bs) refl
      ∙ watch-key_byte (count + 1) (k₀ ∷ []) k₁ (k₂ ∷ k₃ ∷ bs) refl
      ∙ watch-key_byte (count + 1 + 1) (k₀ ∷ k₁ ∷ []) k₂ (k₃ ∷ bs) refl
      ∙ watch-header
          (view_of ws_step_key (count + 1 + 1 + 1) (k₀ ∷ k₁ ∷ k₂ ∷ []) inkey start frame n []) k₃ bs
          (view_of ws_step_data (count + 1 + 1 + 1) (k₀ ∷ k₁ ∷ k₂ ∷ k₃ ∷ []) 0 start frame n
            []).reader
          refl refl

  watch-short_byte :
      (count b : ℕ) (bs : CString)
      → (count == 4) ≡ false
      → watch (view_of ws_step_short_length count [] inkey start frame n []) (b ∷ bs)
        ≡ watch
            (view_of ws_step_short_length
              (count + 1)
              []
              inkey
              start
              (update frame (count - 1) b)
              n
              [])
            bs
  unfolding header take_short
  watch-short_byte count b bs e =
      watch-header (view_of ws_step_short_length count [] inkey start frame n []) b bs
        (view_of ws_step_short_length count [] inkey start (update frame (count - 1) b) n []).reader
        refl (rw e refl)

  watch-extended_byte :
      (count b : ℕ) (bs : CString)
      → (count == 10) ≡ false
      → watch (view_of ws_step_extended_length count [] inkey start frame n []) (b ∷ bs)
        ≡ watch
            (view_of ws_step_extended_length
              (count + 1)
              []
              inkey
              start
              (update frame (count - 1) b)
              n
              [])
            bs
  unfolding header take_extended
  watch-extended_byte count b bs e =
      watch-header (view_of ws_step_extended_length count [] inkey start frame n []) b bs
        (view_of ws_step_extended_length count [] inkey start (update frame (count - 1) b) n
          []).reader
        refl (rw e refl)

-- the three forms of the length
module _ (inkey start op : ℕ) (frame : ℕ → ℕ) where
  watch-op :
      (bs : CString)
      → watch (between inkey start frame) (op ∷ bs)
        ≡ watch (view_of ws_step_length 2 [] inkey op frame 0 []) bs
  unfolding header
  watch-op bs =
      watch-header (between inkey start frame) op bs
        (view_of ws_step_length 1 [] inkey op frame 0 []).reader refl refl

  watch-length_short :
      (n : ℕ) (bs : CString)
      → n < 126
      → watch (view_of ws_step_length 2 [] inkey op frame 0 []) ((128 + n) ∷ bs)
        ≡ watch (view_of ws_step_key 3 [] inkey op frame n []) bs
  unfolding header take_length
  watch-length_short n bs h =
      watch-header (view_of ws_step_length 2 [] inkey op frame 0 []) (128 + n) bs
        (view_of ws_step_key 2 [] inkey op frame n []).reader refl
        (let masked : (128 + n) / 128 % 2 ≡ 1 = omega arith in
          let low : (128 + n) % 128 ≡ n = omega arith in
          let no_medium : (n == 126) ≡ false = ground arith in
          let no_long : (n == 127) ≡ false = ground arith in
          rw (masked, low, take_length, no_medium, no_long) refl)

  watch-length_medium :
      (n : ℕ) (bs : CString)
      → n < 2 ^ 16
      → watch (view_of ws_step_length 2 [] inkey op frame 0 []) (254 ∷ n / 256 ∷ n % 256 ∷ bs)
        ≡ watch
            (view_of ws_step_key 5 [] inkey op (update (update frame 2 (n / 256)) 3 (n % 256)) n [])
            bs
  unfolding header take_length take_short
  watch-length_medium n bs h =
      watch-header (view_of ws_step_length 2 [] inkey op frame 0 []) 254 (n / 256 ∷ n % 256 ∷ bs)
        (view_of ws_step_short_length 2 [] inkey op frame 0 []).reader refl refl
      ∙ watch-short_byte inkey op frame 0 3 (n / 256) (n % 256 ∷ bs) refl
      ∙ watch-header (view_of ws_step_short_length 4 [] inkey op (update frame 2 (n / 256)) 0 [])
          (n % 256) bs
          (view_of ws_step_key 4 [] inkey op (update (update frame 2 (n / 256)) 3 (n % 256)) n
            []).reader
          refl
          (let whole : n / 256 * 256 + n % 256 ≡ n = omega arith in
            ap
              (λ m.
                some
                  (view_of ws_step_key 4 [] inkey op (update (update frame 2 (n / 256)) 3 (n % 256))
                    m []).reader)
              whole)

  -- the bytes of frame_payload behind the start and the 127, when the length is n
  abbrev extended_bytes : ℕ → ℕ → ℕ
  extended_bytes n =
      update
        (update
          (update (update (update (update (update (update frame 2 0) 3 0) 4 0) 5 0) 6 (n / 2 ^ 24))
            7 (n / 2 ^ 16 % 256))
          8 (n / 256 % 256))
        9 (n % 256)

  watch-length_long :
      (n : ℕ) (bs : CString)
      → n < 2 ^ 32
      → watch
          (view_of ws_step_length 2 [] inkey op frame 0 [])
          (255 ∷ 0 ∷ 0 ∷ 0 ∷ 0 ∷ n / 2 ^ 24 ∷ n / 2 ^ 16 % 256 ∷ n / 256 % 256 ∷ n % 256 ∷ bs)
        ≡ watch (view_of ws_step_key 11 [] inkey op (extended_bytes n) n []) bs
  unfolding header take_length take_extended
  watch-length_long n bs h =
      watch-header (view_of ws_step_length 2 [] inkey op frame 0 []) 255 _
        (view_of ws_step_extended_length 2 [] inkey op frame 0 []).reader refl refl
      ∙ watch-extended_byte inkey op _ 0 3 0 _ refl
      ∙ watch-extended_byte inkey op _ 0 4 0 _ refl
      ∙ watch-extended_byte inkey op _ 0 5 0 _ refl
      ∙ watch-extended_byte inkey op _ 0 6 0 _ refl
      ∙ watch-extended_byte inkey op _ 0 7 (n / 2 ^ 24) _ refl
      ∙ watch-extended_byte inkey op _ 0 8 (n / 2 ^ 16 % 256) _ refl
      ∙ watch-extended_byte inkey op _ 0 9 (n / 256 % 256) _ refl
      ∙ watch-header (view_of ws_step_extended_length 10 [] inkey op _ 0 []) (n % 256) bs
          (view_of ws_step_key 10 [] inkey op (extended_bytes n) n []).reader refl
          (let whole : ((n / 2 ^ 24 * 256 + n / 2 ^ 16 % 256) * 256 + n / 256 % 256) * 256 + n % 256
                ≡ n =
              omega arith in
            ap (λ m. some (view_of ws_step_key 10 [] inkey op (extended_bytes n) m []).reader)
              whole)

  -- the opcode and the length, in the form that the length asks for
  pub watch-encode_length :
      (n : ℕ) (bs : CString)
      → n < 2 ^ 32
      → (count : ℕ) × (frame' : ℕ → ℕ) × (watch
            (between inkey start frame)
            (op ∷ (encode_length n ++ bs))
          ≡ watch (view_of ws_step_key count [] inkey op frame' n []) bs)
  unfolding encode_length
  watch-encode_length n bs h = elim (Bool-cases (ltb n 126)) [
    | inl e ↦ (
      3,
      frame,
      rw (encode_length, e) (watch-op ((128 + n) ∷ bs) ∙ watch-length_short n bs (ltb→lt n 126 e)),
    )
    | inr e ↦ elim (Bool-cases (ltb n (2 ^ 16))) [
      | inl e' ↦ (
        5,
        update (update frame 2 (n / 256)) 3 (n % 256),
        rw (encode_length, e, e') (watch-op _ ∙ watch-length_medium n bs (ltb→lt n (2 ^ 16) e')),
      )
      | inr e' ↦
          (11, extended_bytes n, rw (encode_length, e, e') (watch-op _ ∙ watch-length_long n bs h))
    ]
  ]
