-- ===== src/Strings.antt =====
-- src/utils.c: seof, hex2int and urldecode. A string is the bytes before its NUL, and a change in
-- place gives the new ones.
pub mod Decode
pub mod Numbers
pub mod Split
use ape_server.Prelude.{
  ℕ, zero, suc, ◌+◌, ◌-◌, ◌*◌, ◌/◌, ◌%◌, ◌^◌, Bool, true, false, not, ◌&&◌, ◌||◌, Option, none,
  some, List, [], ◌∷◌, ◌++◌, ◌==◌, ltb, leb, if◌then◌else◌, length, drop, take, bit_or,
}
use ape_server.Prelude.Text.{CString, tolower}

abbrev pub next_place : Option ℕ → Option ℕ
next_place none = none
next_place (some pos) = some (pos + 1)

-- the place behind the first `stop`; `none` is -1
unfoldable pub seof : CString → ℕ → Option ℕ
seof [] stop = none
seof (c ∷ s) stop = if c == stop then some 1 else next_place (seof s stop)

-- `unsigned char` wraps at 256
unfoldable pub hex2int : ℕ → ℕ
hex2int c =
    let d = (c + 256 - 48) % 256 in
    let d' = if ltb 9 d then (bit_or (d + 48 - 1) 32 % 256 + 256 - 97 + 11) % 256 else d in
    if ltb 15 d' then 255 else d'

-- two digits behind a '%'
unfoldable pub escape : ℕ → ℕ → Option ℕ
unfolding hex2int
escape a b =
    let high = hex2int a in
    let low = hex2int b in
    if high == 255
    then none
    else if low == 255
    then none
    else let c = (high * 16 + low) % 256 in some (if ltb c 32 || c == 127 then 95 else c)

-- The bytes that urldecode leaves. An escape that the string ends in is none: hex2int(NUL) is 255.
unfoldable pub urldecode : CString → CString
unfolding escape
urldecode [] = []
urldecode (c ∷ []) = c ∷ []
urldecode (c ∷ d ∷ []) = c ∷ d ∷ []
urldecode (c ∷ a ∷ b ∷ s) =
    let plain = c ∷ urldecode (a ∷ b ∷ s) in
    let cut = urldecode s in
    if c == 37 then elim (escape a b) [ none ↦ plain | some d ↦ d ∷ cut ] else plain
