-- ===== src/Hash/Djb.antt =====
-- The hash of a key, `hach_string` of src/hash.c. `int` arithmetic wraps at 32 bits; a `char` above
-- 127 is negative, and `tolower` returns it as it is.
use ape_server.Prelude.{
  ℕ, ◌+◌, ◌-◌, ◌*◌, ◌%◌, ◌^◌, ◌<◌, ◌≡◌, refl, true, [], ◌∷◌, arith, ltb, if◌then◌else◌,
}
use ape_server.Prelude.Text.{CString, codes, tolower, lower, eq_of_str_eq, casecmp}

-- a `char`, extended to an `int`
abbrev sign_extend : ℕ → ℕ
sign_extend c = if ltb c 128 then c else c + 2 ^ 32 - 256

-- ((hash << 5) + hash) + tolower(*s)
djb_step : ℕ → ℕ → ℕ
djb_step hash c = ((hash * 2 ^ 5) % 2 ^ 32 + hash + sign_extend (tolower c)) % 2 ^ 32

djb_loop : ℕ → CString → ℕ
djb_loop hash [] = hash
djb_loop hash (c ∷ s) = djb_loop (djb_step hash c) s

-- (hash & 0x7FFFFFFF) % (HACH_TABLE_MAX - 1)
unfoldable pub hach_string : CString → ℕ
unfolding djb_loop djb_step
hach_string str = djb_loop 5381 str % 2 ^ 31 % 5380

pub hach_string-lt : (str : CString) → hach_string str < 5382
unfolding hach_string
hach_string-lt str = omega arith

tolower-tolower : (c : ℕ) → tolower (tolower c) ≡ tolower c
unfolding tolower
tolower-tolower c = ground arith

djb_step-lower : (h c : ℕ) → djb_step h (tolower c) ≡ djb_step h c
unfolding djb_step
djb_step-lower h c = rw (tolower-tolower c)

djb_loop-lower : (h : ℕ) (s : CString) → djb_loop h (lower s) ≡ djb_loop h s
unfolding djb_loop lower
djb_loop-lower h [] = refl
djb_loop-lower h (c ∷ s) = rw (djb_step-lower h c, djb_loop) (djb_loop-lower (djb_step h c) s)

-- Keys that differ in case alone share a bucket.
pub hach_string-casecmp : (a b : CString) → casecmp a b ≡ true → hach_string a ≡ hach_string b
unfolding hach_string casecmp
hach_string-casecmp a b h =
    rw (← djb_loop-lower 5381 a, ← djb_loop-lower 5381 b, eq_of_str_eq (lower a) (lower b) h)

hach_string_runs : hach_string (codes "aA") ≡ 4387
unfolding hach_string tolower
hach_string_runs = refl
