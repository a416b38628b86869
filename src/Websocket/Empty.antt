-- ===== src/Websocket/Empty.antt =====
-- A frame without a payload, which a client may send: the reader counts from 0 down to 2^64 - 1.
use ape_server.Prelude.{
  ℕ, ◌+◌, ◌-◌, ◌%◌, ◌^◌, ◌<◌, ◌≡◌, ◌∙◌, ap, refl, arith, ◌==◌, false, some, List, [], ◌∷◌, ◌++◌,
  append_assoc, length,
}
use ape_server.Prelude.Text.{CString}
use ape_server.Websocket.{ws_step_data, unmask}
use ape_server.Websocket.View.{View, watch, view_step, followed_nil}
use ape_server.Websocket.Chunks.{fresh, feed_all, all_of, feed_all-watch}
use ape_server.Websocket.Client.{Frame, key_of, mask, encode, encode_length}
use ape_server.Websocket.Lengths.{view_of, between, watch-key, watch-encode_length}

module _ (key : List ℕ) (start : ℕ) (frame : ℕ → ℕ) where
  watch-within :
      (count i n m b : ℕ) (body bs : CString)
      → (n + 2 ^ 64 - 1) % 2 ^ 64 ≡ m
      → (m == 0) ≡ false
      → (body' : CString) × (watch (view_of ws_step_data count key i start frame n body) (b ∷ bs)
          ≡ watch (view_of ws_step_data (count + 1) key (i + 1) start frame m body') bs)
  unfolding watch view_step
  watch-within count i n m b body bs e h =
      let more : ((n + 2 ^ 64 - 1) % 2 ^ 64 == 0) ≡ false = rw e h in
      let body' =
        body ++ unmask (view_of ws_step_data count key i start frame n body).reader b ∷ [] in
      (
        body',
        rw (view_step, more)
            (followed_nil _
              ∙ ap
                  (λ m'.
                    watch (view_of ws_step_data (count + 1) key (i + 1) start frame m' body') bs)
                  e),
      )

  watch-inside :
      (bs : CString) (count i n : ℕ) (body : CString)
      → length bs < n
      → n < 2 ^ 64
      → (v : View) × (watch (view_of ws_step_data count key i start frame n body) bs ≡ some (v, []))
  unfolding watch
  watch-inside [] count i n body l h = (view_of ws_step_data count key i start frame n body, refl)
  watch-inside (b ∷ bs) count i n body l h =
      let (body', first) =
        watch-within count i n (n - 1) b body bs (omega (arith, l, h)) (ground (arith, l)) in
      let (v, others) =
        watch-inside bs (count + 1) (i + 1) (n - 1) body' (omega (arith, l)) (omega (arith, h)) in
      (v, first ∙ others)

  watch-zero :
      (bs : CString) (count i : ℕ) (body : CString)
      → length bs < 2 ^ 64
      → (v : View) × (watch (view_of ws_step_data count key i start frame 0 body) bs ≡ some (v, []))
  unfolding watch
  watch-zero [] count i body l = (view_of ws_step_data count key i start frame 0 body, refl)
  watch-zero (b ∷ bs) count i body l =
      let (body', first) = watch-within count i 0 (2 ^ 64 - 1) b body bs refl refl in
      let (v, others) =
        watch-inside bs (count + 1) (i + 1) (2 ^ 64 - 1) body' (omega (arith, l)) (omega arith) in
      (v, first ∙ others)

watch-empty :
    (op k₀ k₁ k₂ k₃ : ℕ) (bs : CString)
    → length bs < 2 ^ 64
    → (v : View) × (watch
          (between 0 0 (λ _. 0))
          (op ∷ (encode_length 0 ++ (k₀ ∷ k₁ ∷ k₂ ∷ k₃ ∷ bs)))
        ≡ some (v, []))
watch-empty op k₀ k₁ k₂ k₃ bs l =
    let (count, frame', at_key) = watch-encode_length 0 0 op (λ _. 0) 0 _ (omega arith) in
    let (v, lost) =
      watch-zero (k₀ ∷ k₁ ∷ k₂ ∷ k₃ ∷ []) op frame' bs (count + 1 + 1 + 1 + 1) 0 [] l in
    (v, at_key ∙ watch-key 0 op frame' 0 count k₀ k₁ k₂ k₃ bs ∙ lost)

-- When the first frame has no payload, neither it nor what comes behind it is ever seen, while that
-- is fewer than 2^64 bytes: onready is not called and no ping is answered.
pub feed_all-empty :
    (f : Frame) (bs : CString) (reads : List CString)
    → f.payload ≡ []
    → length bs < 2 ^ 64
    → all_of reads ≡ encode f ++ bs
    → (feed_all fresh reads).1 ≡ []
unfolding encode mask
feed_all-empty f bs reads none_there l e =
    let (v, run) = watch-empty f.start f.k₀ f.k₁ f.k₂ f.k₃ bs l in
    feed_all-watch reads v []
      (rw (e, encode, none_there, append_assoc (encode_length 0) (key_of f) bs) run)
