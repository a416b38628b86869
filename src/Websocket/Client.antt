-- ===== src/Websocket/Client.antt =====
-- What a client sends, after draft-ietf-hybi-thewebsocketprotocol-07, and what the server makes of it.
use ape_server.Prelude.{
  ℕ, ◌+◌, ◌/◌, ◌%◌, ◌^◌, ◌<◌, ◌≡◌, bit_xor, ltb, ◌&&◌, ◌==◌, if◌then◌else◌, false, List, [], ◌∷◌,
  ◌++◌, length,
}
use ape_server.Prelude.Text.{CString}
use ape_server.Websocket.{Output, onready, send, key_byte}

pub record Frame : Type 0 where
  pub start : ℕ
  pub k₀ : ℕ
  pub k₁ : ℕ
  pub k₂ : ℕ
  pub k₃ : ℕ
  pub payload : CString

abbrev pub key_of : Frame → List ℕ
key_of f = f.k₀ ∷ f.k₁ ∷ f.k₂ ∷ f.k₃ ∷ []

-- the mask bit and the length, in 7, 16 or 64 bits
unfoldable pub encode_length : ℕ → CString
encode_length n =
    if ltb n 126
    then (128 + n) ∷ []
    else if ltb n (2 ^ 16)
    then 254 ∷ n / 256 ∷ n % 256 ∷ []
    else 255 ∷ 0 ∷ 0 ∷ 0 ∷ 0 ∷ n / 2 ^ 24 ∷ n / 2 ^ 16 % 256 ∷ n / 256 % 256 ∷ n % 256 ∷ []

-- the bytes of the payload from the i-th, each under its byte of the key
unfoldable pub mask : List ℕ → ℕ → CString → CString
mask key i [] = []
mask key i (b ∷ payload) = bit_xor b (key_byte key (i % 4)) ∷ mask key (i + 1) payload

unfoldable pub encode : Frame → CString
encode f = f.start ∷ encode_length (length f.payload) ++ (key_of f ++ mask (key_of f) 0 f.payload)

-- what comes of a frame: a ping is answered, a pong is not, and the rest goes to onready
unfoldable pub expected : Frame → List Output
expected f =
    if f.start % 16 == 9
    then send (0x8a ∷ length f.payload ∷ []) false ∷ send f.payload false ∷ []
    else if f.start % 16 == 10
    then []
    else onready f.payload ∷ []

-- A frame that does not close the connection. The upper half of a length of 64 bits is not used,
-- and a payload has a byte at least.
pub record Sendable (f : Frame) : Type 0 where
  pub some_byte : 0 < length f.payload
  pub bounded : length f.payload < 2 ^ 32
  pub no_close : (f.start % 16 == 8) ≡ false
  pub ping_bounded : (f.start % 16 == 9 && ltb 125 (length f.payload)) ≡ false

abbrev pub encode_all : List Frame → CString
encode_all [] = []
encode_all (f ∷ fs) = encode f ++ encode_all fs

unfoldable pub expected_all : List Frame → List Output
unfolding expected
expected_all [] = []
expected_all (f ∷ fs) = expected f ++ expected_all fs
