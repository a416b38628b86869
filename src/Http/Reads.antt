-- ===== src/Http/Reads.antt =====
-- A request that comes in several reads comes to what it comes to in one.
use ape_server.Prelude.{
  ◌⊎◌, ℕ, zero, suc, ◌+◌, ◌-◌, ◌<◌, ◌≡◌, ◌∙◌, refl, ap, sym, arith, Bool, true, false, ◌||◌,
  Bool-cases, Option-cases, inl, inr, List, [], ◌∷◌, ◌++◌, ◌==◌, length, drop, length-append,
}
use ape_server.Prelude.Text.{CString}
use ape_server.Strings.{seof}
use ape_server.Http.Header.{c_string, head}
use ape_server.Http.Request.{
  Request, Next, stop, again, header_line, is_complete, content, with_line, step_of, request_step,
}
use ape_server.Http.Stable.{seof-HasLine, seof-append}
use ape_server.Http.Chunks.{with_more, more_of, Again, NumberOnLine, header_line-more}
use ape_server.Http.Kept.{
  inside_of, drop-more, head-nonempty, length-drop_at, c_string-append, drop-all, Kept,
  header_line-Kept,
}

-- wherever a string begins in the bytes
abbrev pub Numbered : List ℕ → Type 0
Numbered [] = Unit
Numbered (b ∷ bytes) = NumberOnLine (c_string (b ∷ bytes)) × Numbered bytes

Numbered-drop :
    (bytes : List ℕ) (p : ℕ)
    → Numbered bytes
    → p < length bytes
    → NumberOnLine (c_string (drop p bytes))
Numbered-drop [] p h l = absurd (omega (arith, l))
Numbered-drop (b ∷ bytes) zero (h, hs) l = h
Numbered-drop (b ∷ bytes) (suc p) (h, hs) l = Numbered-drop bytes p hs (omega (arith, l))

abbrev pub is_over : Request → Bool
is_over r = length r.bytes == 0 || r.error || (head (drop r.pos r.bytes) == 0)

request_step-content :
    (r : Request) → is_over r ≡ false → (r.step == 2) ≡ true → request_step r ≡ content r
unfolding request_step step_of
request_step-content r going two =
    let st : (r.step == 0) ≡ false = ground (arith, two) in
    let st' : (r.step == 1) ≡ false = ground (arith, two) in rw (going, step_of, st, st', two) refl

module _ (t : CString) (r : Request) where
  string-more :
      r.pos < length r.bytes
      → (u : CString) × (c_string (drop r.pos (r.bytes ++ t)) ≡ c_string (drop r.pos r.bytes) ++ u)
  string-more inside =
      let (u, e) = c_string-append (drop r.pos r.bytes) t in
      (u, ap c_string (drop-more t r.pos r.bytes (omega (arith, inside))) ∙ e)

  is_over-more : is_over r ≡ false → is_over (with_more r t) ≡ false
  is_over-more e =
      let going : (head (drop r.pos r.bytes) == 0) ≡ false = ground (arith, e) in
      let inside = inside_of r.pos r.bytes going in
      let rest = length-drop_at r.pos r.bytes (omega (arith, inside)) in
      rw
        (
          drop-more t r.pos r.bytes (omega (arith, inside)),
          head-nonempty (drop r.pos r.bytes) t (omega (arith, rest, inside)),
        )
        (ground (arith, e, length-append r.bytes t, inside))

  with_line-more :
      r.pos < length r.bytes
      → Numbered r.bytes
      → Again (with_line r header_line)
      → with_line (with_more r t) header_line ≡ more_of t (with_line r header_line)
  unfolding with_line
  with_line-more inside numbers a =
      let s = c_string (drop r.pos r.bytes) in
      let (u, grown) = string-more inside in
      elim (Option-cases (seof s 10)) [
        | inl waits ↦ absurd (rw (with_line, waits) at a)
        | inr (n, line) ↦
            let h = seof-HasLine s n line in
            rw (with_line, grown, seof-append u s h, line)
              (ap (λ x. header_line (with_more r t) x n) grown
                ∙ header_line-more t u r s n h (Numbered-drop r.bytes r.pos numbers inside)
                    (rw (with_line, line) at a))
      ]

  content-returns : Again (content r) → ⊥
  unfolding content
  content-returns a =
      elim (Bool-cases (is_complete (r.read + (length r.bytes - r.pos)) r.content_length)) [
        | inl e ↦ rw (content, e) at a
        | inr e ↦ rw (content, e) at a
      ]

  step_of-more :
      (r.step == 0) ≡ false
      → r.pos < length r.bytes
      → Numbered r.bytes
      → Again (step_of r.step r)
      → step_of r.step (with_more r t) ≡ more_of t (step_of r.step r)
  unfolding step_of
  step_of-more st inside numbers a = elim (Bool-cases (r.step == 1)) [
    | inl one ↦ rw (step_of, st, one) (with_line-more inside numbers (rw (step_of, st, one) at a))
    | inr e ↦ elim (Bool-cases (r.step == 2)) [
      | inl two ↦ absurd (content-returns (rw (step_of, st, e, two) at a))
      | inr other ↦ absurd (rw (step_of, st, e, other) at a)
    ]
  ]

  -- A step that goes on is the same step with more bytes in the buffer.
  pub request_step-more :
      (r.step == 0) ≡ false
      → Numbered r.bytes
      → Again (request_step r)
      → request_step (with_more r t) ≡ more_of t (request_step r)
  unfolding request_step
  request_step-more st numbers a = elim (Bool-cases (is_over r)) [
    | inl over ↦ absurd (rw over at a)
    | inr going ↦
        let alive : (head (drop r.pos r.bytes) == 0) ≡ false = ground (arith, going) in
        rw (going, is_over-more going)
          (step_of-more st (inside_of r.pos r.bytes alive) numbers (rw going at a))
  ]

  -- What returns without an event has failed, or has waited for a line, or has taken what there is of
  -- the content: with more bytes, the next call does what this one would have done.
  unfoldable pub Resumes : Next → Type 0
  Resumes (stop r' []) =
      (r'.error ≡ true) ⊎ (request_step (with_more r t) ≡ request_step (with_more r' t))
  Resumes (stop r' (e ∷ events)) = Unit
  Resumes (again r') = Unit

  Kept-Resumes : (x : Next) → Kept r.bytes x → Resumes x
  unfolding Resumes
  Kept-Resumes (stop r' []) k = absurd k
  Kept-Resumes (stop r' (e ∷ events)) k = tt
  Kept-Resumes (again r') k = tt

  with_line-Resumes : (r.step == 0) ≡ false → Resumes (with_line r header_line)
  unfolding with_line Resumes
  with_line-Resumes st = elim (Option-cases (seof (c_string (drop r.pos r.bytes)) 10)) [
    | inl waits ↦ rw (with_line, waits) (inr refl)
    | inr (n, line) ↦
        rw (with_line, line)
          (Kept-Resumes (header_line r (c_string (drop r.pos r.bytes)) n)
            (header_line-Kept r (c_string (drop r.pos r.bytes)) n st))
  ]

  taken : Request
  taken = record r { pos = length r.bytes; read = r.read + (length r.bytes - r.pos) }

  content-more : r.pos < length r.bytes → content (with_more r t) ≡ content (with_more taken t)
  unfolding content taken
  content-more inside =
      let same : r.read + (length (r.bytes ++ t) - r.pos)
          ≡ r.read + (length r.bytes - r.pos) + (length (r.bytes ++ t) - length r.bytes) =
        omega (arith, inside, length-append r.bytes t) in
      rw (content, same) refl

  taken-more :
      (head t == 0) ≡ false
      → is_over r ≡ false
      → (r.step == 2) ≡ true
      → request_step (with_more r t) ≡ request_step (with_more taken t)
  unfolding taken
  taken-more text going two =
      let alive : (head (drop r.pos r.bytes) == 0) ≡ false = ground (arith, going) in
      let inside = inside_of r.pos r.bytes alive in
      let fed : is_over (with_more taken t) ≡ false =
        rw (drop-all r.bytes t) (ground (arith, going, text, length-append r.bytes t, inside)) in
      request_step-content (with_more r t) (is_over-more going) two
      ∙ content-more inside
      ∙ sym (request_step-content (with_more taken t) fed two)

  content-Resumes :
      (head t == 0) ≡ false → is_over r ≡ false → (r.step == 2) ≡ true → Resumes (content r)
  unfolding content Resumes taken
  content-Resumes text going two =
      elim (Bool-cases (is_complete (r.read + (length r.bytes - r.pos)) r.content_length)) [
        | inl e ↦ rw (content, e) tt
        | inr e ↦ rw (content, e) (inr (taken-more text going two))
      ]

  pub request_step-Resumes :
      (head t == 0) ≡ false → (r.step == 0) ≡ false → Resumes (request_step r)
  unfolding request_step step_of Resumes
  request_step-Resumes text st = elim (Bool-cases (is_over r)) [
    | inl over ↦ rw over (inr refl)
    | inr going ↦ elim (Bool-cases (r.step == 1)) [
      | inl one ↦ rw (going, step_of, st, one) (with_line-Resumes st)
      | inr e ↦ elim (Bool-cases (r.step == 2)) [
        | inl two ↦ rw (going, step_of, st, e, two) (content-Resumes text going two)
        | inr other ↦ rw (going, step_of, st, e, other) (inr refl)
      ]
    ]
  ]
