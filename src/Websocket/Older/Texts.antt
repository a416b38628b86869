-- ===== src/Websocket/Older/Texts.antt =====
-- The texts that a client sends in the older framing.
use ape_server.Prelude.{
  ℕ, ◌≤◌, ◌≡◌, refl, ap, ◌∙◌, arith, false, some, List, [], ◌∷◌, ◌++◌, ◌==◌, length, append_assoc,
  append-nil,
}
use ape_server.Prelude.Text.{CString}
use ape_server.Http.Header.{c_string}
use ape_server.Websocket.Older.{Buffer, Parsed, max_buffer, feed_all}
use ape_server.Websocket.Older.Watched.{outside, inside, watch, prepend}
use ape_server.Websocket.Older.Reads.{joined, feed_all-messages}

-- a byte of a text: none of 0x00, which ends a string, and 0xFF, which ends a message
unfoldable pub IsPlain : CString → Type 0
IsPlain [] = Unit
IsPlain (b ∷ bs) = ((b == 0) ≡ false) × ((b == 255) ≡ false) × IsPlain bs

unfoldable pub AreTexts : List CString → Type 0
unfolding IsPlain
AreTexts [] = Unit
AreTexts ([] ∷ texts) = ⊥
AreTexts ((c ∷ cs) ∷ texts) = IsPlain (c ∷ cs) × AreTexts texts

unfoldable pub enclose_all : List CString → List ℕ
enclose_all [] = []
enclose_all (text ∷ texts) = 0 ∷ (text ++ 255 ∷ enclose_all texts)

c_string-plain : (s : CString) → IsPlain s → c_string s ≡ s
unfolding IsPlain
c_string-plain [] p = refl
c_string-plain (b ∷ bs) (no_end, _, p) = rw (no_end, c_string-plain bs p) refl

watch-inside :
    (m s rest : List ℕ)
    → IsPlain s
    → watch (inside m) (s ++ 255 ∷ rest) ≡ prepend (c_string (m ++ s) ∷ []) (watch outside rest)
unfolding IsPlain watch
watch-inside m [] rest p = rw (append-nil m) refl
watch-inside m (b ∷ bs) rest (_, no_mark, p) = rw no_mark (
    watch-inside (m ++ b ∷ []) bs rest p
    ∙ ap (λ l. prepend (c_string l ∷ []) (watch outside rest)) (append_assoc m (b ∷ []) bs))

watch-enclose_all :
    (texts : List CString) → AreTexts texts → watch outside (enclose_all texts) ≡ (texts, outside)
unfolding AreTexts IsPlain enclose_all watch
watch-enclose_all [] p = refl
watch-enclose_all ([] ∷ texts) p = absurd p
watch-enclose_all ((c ∷ cs) ∷ texts) (plain, p) =
    watch-inside (c ∷ []) cs (enclose_all texts) plain.2
    ∙ rw (c_string-plain (c ∷ cs) plain, watch-enclose_all texts p) refl

abbrev pub empty_buffer : Buffer
empty_buffer = record { offset = 0; rest = [] }

-- Texts that are not empty and have none of the bytes 0x00 and 0xFF, each sent between 0x00 and 0xFF,
-- with at most 502400 bytes in all: however the stream is cut into reads, onready is called with each
-- text, in order, and the connection is not shut down.
pub feed_all-enclose_all :
    (texts : List CString) (reads : List (List ℕ))
    → AreTexts texts
    → joined reads ≡ enclose_all texts
    → length (joined reads) ≤ max_buffer
    → (p : Parsed) × (feed_all reads empty_buffer ≡ some p)
      × (p.messages ≡ texts)
      × (p.shut ≡ false)
unfolding watch
feed_all-enclose_all texts reads plain cut small =
    let (p, runs, messages, goes_on) =
      feed_all-messages reads empty_buffer refl (omega (arith, small)) in
    (
      p,
      runs,
      messages ∙ ap (λ l. (watch outside l).0) cut ∙ ap (λ r. r.0) (watch-enclose_all texts plain),
      goes_on,
    )
