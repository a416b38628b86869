-- ===== src/Tests/Frames.antt =====
-- Requests and frames: src/http.c and src/utils.c at concrete inputs.
use ape_server.Prelude.{◌≡◌, refl, arith, false, not, ◌==◌, List, [], ◌∷◌}
use ape_server.Prelude.Text.{CString, codes}
use ape_server.Websocket.{onready, send, header, deliver, key_byte}
use ape_server.Websocket.View.{watch}
use ape_server.Websocket.Chunks.{feed_all, fresh, feed_all-watch}
use ape_server.Websocket.Client.{Frame, Sendable, encode, encode_length, mask, expected_all}
use ape_server.Websocket.Payloads.{feed_all-encode_all}
use ape_server.Websocket.Bounds.{IsBounded, feed_all-IsBounded}
use ape_server.Strings.{urldecode}
use ape_server.Strings.Decode.{encode_uri, urldecode-encode_uri}
use ape_server.Http.Request.{parser_init_http, receive}
use ape_server.Http.Fitting.{Fits}
use ape_server.Http.Enough.{Fitting, receive-Fitting}

-- "Hi" as a text, under a key, and a ping
abbrev hi : Frame
hi = record { start = 0x81; k₀ = 1; k₁ = 2; k₂ = 3; k₃ = 4; payload = codes "Hi" }

abbrev ping : Frame
ping = record { start = 0x89; k₀ = 9; k₁ = 8; k₂ = 7; k₃ = 6; payload = codes "p" }

hi-Sendable : Sendable hi
hi-Sendable = record {
  some_byte = omega arith;
  bounded = omega arith;
  no_close = refl;
  ping_bounded = refl;
}

ping-Sendable : Sendable ping
ping-Sendable = record {
  some_byte = omega arith;
  bounded = omega arith;
  no_close = refl;
  ping_bounded = refl;
}

-- the two frames in three reads
abbrev three_reads : List CString
three_reads =
    (0x81 ∷ 130 ∷ 1 ∷ [])
    ∷ (2 ∷ 3 ∷ 4 ∷ 73 ∷ 107 ∷ 0x89 ∷ [])
    ∷ (129 ∷ 9 ∷ 8 ∷ 7 ∷ 6 ∷ 121 ∷ [])
    ∷ []

feed_all-encode_all_example :
    (feed_all fresh three_reads).1
    ≡ onready (codes "Hi") ∷ send (0x8a ∷ 1 ∷ []) false ∷ send (codes "p") false ∷ []
unfolding expected_all encode encode_length mask key_byte
feed_all-encode_all_example =
    feed_all-encode_all (hi ∷ ping ∷ []) three_reads (hi-Sendable, (ping-Sendable, tt)) refl

feed_all-watch_example :
    (feed_all fresh three_reads).1
    ≡ onready (codes "Hi") ∷ send (0x8a ∷ 1 ∷ []) false ∷ send (codes "p") false ∷ []
unfolding watch header deliver key_byte
feed_all-watch_example = feed_all-watch three_reads _ _ refl

feed_all-IsBounded_example : IsBounded (feed_all fresh three_reads).0
feed_all-IsBounded_example = feed_all-IsBounded three_reads

abbrev nothing : Frame
nothing = record { start = 0x81; k₀ = 1; k₁ = 2; k₂ = 3; k₃ = 4; payload = [] }

urldecode-encode_uri_example :
    urldecode (encode_uri (λ c. not (c == 32)) (codes "a %b")) ≡ codes "a %b"
urldecode-encode_uri_example =
    urldecode-encode_uri (λ c. not (c == 32)) (codes "a %b")
      (
        (omega arith, (omega arith, refl)),
        (
          (omega arith, (omega arith, refl)),
          ((omega arith, (omega arith, refl)), ((omega arith, (omega arith, refl)), tt)),
        ),
      )

init-Fits : Fits parser_init_http
init-Fits = record { content_length = tt; hlines = tt }

receive-Fitting_example :
    Fitting (receive parser_init_http (codes "POST /1/ HTTP/1.1\r\nContent-Length: 60000\r\n\r\n"))
receive-Fitting_example = receive-Fitting parser_init_http _ init-Fits
