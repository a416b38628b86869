-- ===== src/Websocket/Older/Watched.antt =====
-- The messages of the older framing, by a reader that looks at each byte once.
use ape_server.Prelude.{
  ℕ, zero, suc, ◌≤◌, ◌<◌, ◌≡◌, refl, ap, ◌∙◌, arith, Bool, true, false, Bool-cases, inl, inr, none,
  some, List, [], ◌∷◌, ◌++◌, ◌==◌, if◌then◌else◌, length, append_assoc, append-nil,
}
use ape_server.Prelude.Text.{CString}
use ape_server.Http.Header.{c_string}
use ape_server.Websocket.Older.{up_to_mark, next_message, message_loop}

-- in front of a message, behind its 0, and in the message
pub data Watch : Type 0 where
  outside : Watch
  opened : Watch
  inside : List ℕ → Watch

abbrev pub prepend : List CString → List CString × Watch → List CString × Watch
prepend ms (ns, w) = (ms ++ ns, w)

unfoldable pub watch : Watch → List ℕ → List CString × Watch
watch w [] = ([], w)
watch outside (b ∷ bs) = watch (if b == 0 then opened else inside []) bs
watch opened (b ∷ bs) = watch (inside (b ∷ [])) bs
watch (inside m) (b ∷ bs) =
    let closed = watch outside bs in
    let goes_on = watch (inside (m ++ b ∷ [])) bs in
    if b == 255 then prepend (c_string m ∷ []) closed else goes_on

-- the bytes behind the head of a message, with or without its end
data Marked (bs : List ℕ) : Type 0 where
  unmarked : up_to_mark bs ≡ none → ((m : List ℕ) → (watch (inside m) bs).0 ≡ []) → Marked bs
  marked :
      (found after : List ℕ)
      → up_to_mark bs ≡ some (found, after)
      → ((m more : List ℕ)
          → watch (inside m) (bs ++ more)
            ≡ prepend (c_string (m ++ found) ∷ []) (watch outside (after ++ more)))
      → length after < length bs
      → Marked bs

up_to_mark-Marked : (bs : List ℕ) → Marked bs
unfolding up_to_mark watch
up_to_mark-Marked [] = unmarked refl (λ m. refl)
up_to_mark-Marked (b ∷ bs) = elim (Bool-cases (b == 255)) [
  | inl end ↦ marked [] bs (rw end refl) (λ m more. rw (end, append-nil m) refl) (omega arith)
  | inr other ↦ elim (up_to_mark-Marked bs) [
    | unmarked missing none_out ↦
        unmarked (rw (other, missing) refl) (λ m. rw other (none_out (m ++ b ∷ [])))
    | marked found after there shown less ↦
        marked (b ∷ found) after (rw (other, there) refl)
          (λ m more. rw other (
            shown (m ++ b ∷ []) more
            ∙ ap (λ l. prepend (c_string l ∷ []) (watch outside (after ++ more)))
                (append_assoc m (b ∷ []) found)))
          (omega (arith, less))
  ]
]

-- the bytes from the head of a message
data Next (bs : List ℕ) : Type 0 where
  waits : next_message bs ≡ none → (watch outside bs).0 ≡ [] → Next bs
  comes :
      (found after : List ℕ)
      → next_message bs ≡ some (found, after)
      → ((more : List ℕ)
          → watch outside (bs ++ more)
            ≡ prepend (c_string found ∷ []) (watch outside (after ++ more)))
      → length after < length bs
      → Next bs

watch-first :
    (zero_first : Bool) (b : ℕ) (bs : List ℕ)
    → (b == 0) ≡ zero_first
    → watch outside (b ∷ bs) ≡ watch (if zero_first then opened else inside []) bs
unfolding watch
watch-first zero_first b bs e = ap (λ z. watch (if z then opened else inside []) bs) e

next_message-Next : (bs : List ℕ) → Next bs
unfolding next_message watch
next_message-Next [] = waits refl refl
next_message-Next (b ∷ []) = waits refl refl
next_message-Next (b ∷ c ∷ cs) = elim (Bool-cases (b == 0)) [
  | inl zero_first ↦ elim (up_to_mark-Marked cs) [
    | unmarked missing none_out ↦
        waits (rw (zero_first, missing) refl)
          (ap (λ r. r.0) (watch-first true b (c ∷ cs) zero_first) ∙ none_out (c ∷ []))
    | marked found after there shown less ↦
        comes (c ∷ found) after (rw (zero_first, there) refl)
          (λ more. watch-first true b (c ∷ (cs ++ more)) zero_first ∙ shown (c ∷ []) more)
          (omega (arith, less))
  ]
  | inr other ↦ elim (up_to_mark-Marked (c ∷ cs)) [
    | unmarked missing none_out ↦
        waits (rw (other, missing) refl)
          (ap (λ r. r.0) (watch-first false b (c ∷ cs) other) ∙ none_out [])
    | marked found after there shown less ↦
        comes found after (rw (other, there) refl)
          (λ more. watch-first false b (c ∷ (cs ++ more)) other ∙ shown [] more)
          (omega (arith, less))
  ]
]

-- what the loop over messages gives, and that enough fuel is given
pub record IsLooped (bs : List ℕ) (ms : List CString) (left : List ℕ) : Type 0 where
  pub shown :
      (more : List ℕ) → watch outside (bs ++ more) ≡ prepend ms (watch outside (left ++ more))
  pub waiting : (watch outside left).0 ≡ []
  pub shorter : length left ≤ length bs

pub message_loop-IsLooped :
    (fuel : ℕ) (bs : List ℕ)
    → length bs < fuel
    → (ms : List CString) × (left : List ℕ) × (message_loop fuel bs ≡ some (ms, left))
      × IsLooped bs ms left
unfolding message_loop watch
message_loop-IsLooped zero bs enough = absurd (omega (arith, enough))
message_loop-IsLooped (suc fuel) bs enough = elim (next_message-Next bs) [
  | waits missing none_out ↦ (
    [],
    bs,
    rw (message_loop, missing) refl,
    record { shown = λ more. refl; waiting = none_out; shorter = omega arith },
  )
  | comes found [] there shown less ↦ (
    c_string found ∷ [],
    [],
    rw (message_loop, there) refl,
    record { shown = shown; waiting = refl; shorter = omega arith },
  )
  | comes found (a ∷ after) there shown less ↦
      let (ms, left, runs, l) =
        message_loop-IsLooped fuel (a ∷ after) (omega (arith, less, enough)) in
      (
        c_string found ∷ ms,
        left,
        rw (message_loop, there, runs) refl,
        record {
          shown = λ more. shown more ∙ ap (prepend (c_string found ∷ [])) (l.shown more);
          waiting = l.waiting;
          shorter = omega (arith, l.shorter, less);
        },
      )
]
