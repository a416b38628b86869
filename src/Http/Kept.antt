-- ===== src/Http/Kept.antt =====
-- What the buffer has where it grows, and what a line of process_http keeps.
use ape_server.Prelude.{
  ℕ, zero, suc, ◌+◌, ◌≤◌, ◌<◌, ◌≡◌, refl, ap, arith, Bool, true, false, ◌&&◌, ◌||◌, Bool-cases, inl,
  inr, Option, none, some, List, [], ◌∷◌, ◌++◌, ◌==◌, ltb, leb, length, drop,
}
use ape_server.Prelude.Text.{CString, codes, casecmp}
use ape_server.Http.Response.{ncasecmp}
use ape_server.Http.Header.{HeaderLine, c_string, head, atoi, parse_header_line}
use ape_server.Http.Request.{
  Request, Method, Next, stop, again, http_get, http_post, http_get_ws, http_null,
  content_length_line, header_fields, blank_line, add_line, header_line,
}
use ape_server.Http.Chunks.{to_content_by}

-- where a string is not over, it goes on
pub inside_of : (n : ℕ) (s : CString) → (head (drop n s) == 0) ≡ false → n < length s
inside_of zero [] e = cc
inside_of zero (d ∷ s) e = omega arith
inside_of (suc n) [] e = cc
inside_of (suc n) (d ∷ s) e = omega (arith, inside_of n s e)

pub drop-more :
    (t : CString) (n : ℕ) (xs : List ℕ) → n ≤ length xs → drop n (xs ++ t) ≡ drop n xs ++ t
drop-more t zero xs h = refl
drop-more t (suc n) [] h = absurd (omega (arith, h))
drop-more t (suc n) (x ∷ xs) h = drop-more t n xs (omega (arith, h))

pub head-nonempty : (s t : CString) → 0 < length s → head (s ++ t) ≡ head s
head-nonempty [] t h = absurd (omega (arith, h))
head-nonempty (c ∷ s) t h = refl

pub length-drop_at : (n : ℕ) (s : CString) → n ≤ length s → n + length (drop n s) ≡ length s
length-drop_at zero s h = omega arith
length-drop_at (suc n) [] h = absurd (omega (arith, h))
length-drop_at (suc n) (c ∷ s) h = omega (arith, length-drop_at n s (omega (arith, h)))

-- what the string in the buffer grows by: nothing, if it ends in the buffer
pub c_string-append : (xs t : List ℕ) → (u : CString) × (c_string (xs ++ t) ≡ c_string xs ++ u)
c_string-append [] t = (c_string t, refl)
c_string-append (x ∷ xs) t =
    let (u, e) = c_string-append xs t in
    elim (Bool-cases (x == 0)) [
      | inl ended ↦ ([], rw ended refl)
      | inr more ↦ (u, rw more (ap (λ v. x ∷ v) e))
    ]

pub drop-all : (xs t : List ℕ) → drop (length xs) (xs ++ t) ≡ t
drop-all [] t = refl
drop-all (x ∷ xs) t = drop-all xs t

-- A step on a line returns with an event, or keeps the bytes and goes on.
abbrev pub Kept : List ℕ → Next → Type 0
Kept bytes (stop r []) = ⊥
Kept bytes (stop r (e ∷ events)) = Unit
Kept bytes (again r) = (r.bytes ≡ bytes) × ((r.step == 0) ≡ false)

module _ (r : Request) (n : ℕ) (st : (r.step == 0) ≡ false) where
  content_length_line-Kept : (a : Bool × ℕ) → Kept r.bytes (content_length_line r n a)
  unfolding content_length_line
  content_length_line-Kept (false, l) = tt
  content_length_line-Kept (true, l) = elim (Bool-cases (l == 0 || ltb 51200 l)) [
    | inl e ↦ rw e tt
    | inr e ↦ rw e (refl, st)
  ]

  header_fields-Kept : (m : Method) (line : CString) → Kept r.bytes (header_fields m r line n)
  unfolding header_fields
  header_fields-Kept http_post line =
      elim (Bool-cases (leb n 25 && ncasecmp (codes "content-length: ") line 16)) [
        | inl e ↦ rw e (content_length_line-Kept (atoi (drop 16 line)))
        | inr e ↦ rw e (refl, st)
      ]
  header_fields-Kept http_get line =
      elim (Bool-cases (ncasecmp (codes "Sec-WebSocket-Key1: ") line 20)) [
        | inl e ↦ rw e (refl, st)
        | inr e ↦ rw e (refl, st)
      ]
  header_fields-Kept http_get_ws line = (refl, st)
  header_fields-Kept http_null line = (refl, st)

  to_content-Kept : (o : Option ℕ) → Kept r.bytes (to_content_by r n o)
  to_content-Kept none = (refl, refl)
  to_content-Kept (some l) = elim (Bool-cases (l == 0)) [
    | inl e ↦ rw e tt
    | inr e ↦ rw e (refl, refl)
  ]

  blank_line-Kept : (m : Method) → Kept r.bytes (blank_line m r n)
  unfolding blank_line
  blank_line-Kept http_get = tt
  blank_line-Kept http_get_ws = (refl, refl)
  blank_line-Kept http_post = to_content-Kept r.content_length
  blank_line-Kept http_null = to_content-Kept r.content_length

pub header_line-Kept :
    (r : Request) (line : CString) (n : ℕ)
    → (r.step == 0) ≡ false
    → Kept r.bytes (header_line r line n)
unfolding header_line add_line
header_line-Kept r line n st = elim (Bool-cases (n == 1 || (n == 2 && head line == 13))) [
  | inl blank ↦ rw blank (blank_line-Kept r n st r.method)
  | inr field ↦ rw field (by_line (parse_header_line line))
]
  where
    by_line : (o : Option HeaderLine) → Kept r.bytes (header_fields r.method (add_line r o) line n)
    by_line none = header_fields-Kept r n st r.method line
    by_line (some l) = elim (Bool-cases (casecmp l.key (codes "host"))) [
      | inl e ↦ rw e (
          header_fields-Kept (record r { hlines = l ∷ r.hlines; host = some l.value }) n st r.method
            line)
      | inr e ↦ rw e (header_fields-Kept (record r { hlines = l ∷ r.hlines }) n st r.method line)
    ]
