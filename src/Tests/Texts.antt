-- ===== src/Tests/Texts.antt =====
-- process_websocket of src/http.c: two texts in the older framing, in three reads.
use ape_server.Prelude.{ℕ, ◌≡◌, refl, arith, false, some, List, [], ◌∷◌, ◌++◌}
use ape_server.Prelude.Text.{CString, codes}
use ape_server.Websocket.Older.{Parsed, feed_all}
use ape_server.Websocket.Older.Watched.{watch, outside}
use ape_server.Websocket.Older.Reads.{joined, feed_all-messages}
use ape_server.Websocket.Older.Texts.{
  IsPlain, AreTexts, enclose_all, empty_buffer, feed_all-enclose_all,
}

abbrev texts : List CString
texts = codes "Hi" ∷ codes "p" ∷ []

abbrev three_reads : List (List ℕ)
three_reads = (0 ∷ codes "H") ∷ (codes "i" ++ 255 ∷ 0 ∷ []) ∷ (codes "p" ++ 255 ∷ []) ∷ []

feed_all-messages_example :
    (p : Parsed) × (feed_all three_reads empty_buffer ≡ some p)
    × (p.messages ≡ (watch outside (joined three_reads)).0)
    × (p.shut ≡ false)
unfolding watch
feed_all-messages_example = feed_all-messages three_reads empty_buffer refl (omega arith)

feed_all-enclose_all_example :
    (p : Parsed) × (feed_all three_reads empty_buffer ≡ some p)
    × (p.messages ≡ texts)
    × (p.shut ≡ false)
unfolding IsPlain AreTexts enclose_all
feed_all-enclose_all_example =
    feed_all-enclose_all texts three_reads ((refl, refl, (refl, refl, tt)), ((refl, refl, tt), tt))
      refl (omega arith)

-- a message without a byte: its 0xFF is taken for the first byte of the next one
empty_message :
    feed_all ((0 ∷ 255 ∷ 0 ∷ codes "p" ++ 255 ∷ []) ∷ []) empty_buffer
    ≡ some (record { buffer = empty_buffer; messages = (255 ∷ []) ∷ []; shut = false })
unfolding feed_all
empty_message = refl
