-- ===== src/Http/Fitting.antt =====
-- What process_http stores fits in its place, and each call of itself is a line further on.
use ape_server.Prelude.{
  ℕ, ◌+◌, ◌-◌, ◌≤◌, ◌<◌, ◌≡◌, refl, arith, Bool, true, false, ◌&&◌, ◌||◌, Bool-cases, Option-cases,
  inl, inr, Option, none, some, [], ◌∷◌, ◌++◌, ◌==◌, ltb, leb, if◌then◌else◌, length, drop,
  length-set, length-append, All,
}
use ape_server.Prelude.Text.{CString, codes, casecmp}
use ape_server.Http.Response.{ncasecmp}
use ape_server.Http.Header.{
  HeaderLine, is_end, is_bad, scan_value, scan_key, head, scan_uri, atoi, parse_header_line,
}
use ape_server.Http.Request.{
  Request, Method, http_get, http_post, http_get_ws, http_null, Next, stop, again, fail, method_of,
  after_uri, first_line, to_content, blank_line, add_line, line_end, content_length_line,
  header_fields,
}

-- an accepted length of the content: MAX_CONTENT_LENGTH at most, and 8 bytes in a handshake
abbrev pub LengthFits : Option ℕ → Type 0
LengthFits none = Unit
LengthFits (some l) = (1 ≤ l) × (l ≤ 51200)

-- key.val has 64 bytes, value.val 1024, with the NUL
abbrev pub LineFits : HeaderLine → Type 0
LineFits l = (length l.key < 64) × (length l.value < 1024)

pub record Fits (r : Request) : Type 0 where
  pub content_length : LengthFits r.content_length
  pub hlines : All LineFits r.hlines

scan_value-bound : (i : ℕ) (s : CString) → length (scan_value i s) ≤ 1024 - i
unfolding scan_value
scan_value-bound i [] = omega arith
scan_value-bound i (c ∷ s) = elim (Bool-cases (leb 1024 i || is_end c)) [
  | inl e ↦ rw e (omega arith)
  | inr e ↦
      let more : i < 1024 = ground (arith, e) in
      rw e (omega (arith, more, scan_value-bound (i + 1) s))
]

abbrev pub LineFits? : Option HeaderLine → Type 0
LineFits? none = Unit
LineFits? (some l) = LineFits l

LineFits?-if :
    (b : Bool) (x y : Option HeaderLine)
    → (b ≡ true → LineFits? x)
    → (b ≡ false → LineFits? y)
    → LineFits? (if b then x else y)
LineFits?-if true x y f g = f refl
LineFits?-if false x y f g = g refl

scan_key-LineFits : (i : ℕ) (key s : CString) → length key ≡ i → LineFits? (scan_key i key s)
unfolding scan_key
scan_key-LineFits i key [] e = tt
scan_key-LineFits i key (c ∷ s) e =
    let rest =
      scan_key-LineFits (i + 1) (key ++ c ∷ []) s (omega (arith, e, length-append key (c ∷ []))) in
    elim (Bool-cases (is_end c)) [
      | inl ended ↦ rw ended tt
      | inr more ↦ elim (Bool-cases (is_bad i c s)) [
        | inl bad ↦ rw (more, bad) tt
        | inr good ↦ elim (Bool-cases (c == 58)) [
          | inl colon ↦ rw (more, good, colon) (found (ground (arith, good, e)))
          | inr other ↦ rw (more, good, other) rest
        ]
      ]
    ]
  where
    found : length key < 64 → LineFits (record { key = key; value = scan_value (i + 2) (drop 1 s) })
    found short = (short, omega (arith, scan_value-bound (i + 2) (drop 1 s)))

pub parse_header_line-LineFits : (line : CString) → LineFits? (parse_header_line line)
unfolding parse_header_line
parse_header_line-LineFits line = scan_key-LineFits 0 [] line refl

-- What a call leaves fits; where it calls itself, it is in the first case no more, and in a buffer of
-- the same length it is at n or further on.
abbrev pub Later : ℕ → ℕ → Next → Type 0
Later size n (stop r events) = Fits r
Later size n (again r) = Fits r × (length r.bytes ≡ size) × (r.step == 0 ≡ false) × (n ≤ r.pos)

module _ (size n : ℕ) where
  Later-if :
      (b : Bool) (x y : Next)
      → (b ≡ true → Later size n x)
      → (b ≡ false → Later size n y)
      → Later size n (if b then x else y)
  Later-if true x y f g = f refl
  Later-if false x y f g = g refl

  after_uri-Later :
      (r : Request) (i : ℕ) (o : Option ℕ × Option ℕ)
      → Fits r
      → length r.bytes ≡ size
      → Later size n (after_uri r n i o)
  unfolding after_uri
  after_uri-Later r i (none, query) f e = record {
    content_length = f.content_length;
    hlines = f.hlines;
  }
  after_uri-Later r i (some space, query) f e = (
    record { content_length = f.content_length; hlines = f.hlines },
    omega (arith, e, length-set r.bytes space 0),
    refl,
    omega arith,
  )

  pub first_line-Later :
      (r : Request) (line : CString)
      → Fits r
      → length r.bytes ≡ size
      → Later size n (first_line r line n)
  unfolding first_line
  first_line-Later r line f l = elim (Option-cases (method_of line)) [
    | inl e ↦ rw (first_line, e) (record { content_length = f.content_length; hlines = f.hlines })
    | inr ((m, p), e) ↦
        rw (first_line, e)
          (let g : Fits (record r { method = m }) = record {
            content_length = f.content_length;
            hlines = f.hlines;
          } in
            Later-if (head (drop p line) == 47) _ _
              (λ _.
                after_uri-Later (record r { method = m }) (r.pos + p)
                  (scan_uri (r.pos + p + 1) r.query (drop (p + 1) line)) g l)
              (λ _. record { content_length = f.content_length; hlines = f.hlines }))
  ]

module _ (r : Request) (n : ℕ) (f : Fits r) (st : (r.step == 0) ≡ false) where
  content_length_line-Later :
      (a : Bool × ℕ) → Later (length r.bytes) (r.pos + n) (content_length_line r n a)
  unfolding content_length_line
  content_length_line-Later (false, l) = record {
    content_length = f.content_length;
    hlines = f.hlines;
  }
  content_length_line-Later (true, l) =
      Later-if (length r.bytes) (r.pos + n) (l == 0 || ltb 51200 l) _ _
        (λ _. record { content_length = f.content_length; hlines = f.hlines })
        (λ e.
          let fits : LengthFits (some l) = (ground (arith, e), ground (arith, e)) in
          (record { content_length = fits; hlines = f.hlines }, refl, st, omega arith))

  line_end-Later :
      (m : Method) → Later (length r.bytes) (r.pos + n) (line_end (record r { method = m }) n)
  line_end-Later m =
      (record { content_length = f.content_length; hlines = f.hlines }, refl, st, omega arith)

  pub header_fields-Later :
      (m : Method) (line : CString) → Later (length r.bytes) (r.pos + n) (header_fields m r line n)
  unfolding header_fields
  header_fields-Later http_post line =
      Later-if (length r.bytes) (r.pos + n)
        (leb n 25 && ncasecmp (codes "content-length: ") line 16)
        (content_length_line r n (atoi (drop 16 line))) (line_end r n)
        (λ _. content_length_line-Later (atoi (drop 16 line))) (λ _. line_end-Later r.method)
  header_fields-Later http_get line =
      Later-if (length r.bytes) (r.pos + n) (ncasecmp (codes "Sec-WebSocket-Key1: ") line 20)
        (line_end (record r { method = http_get_ws }) n) (line_end r n)
        (λ _. line_end-Later http_get_ws) (λ _. line_end-Later r.method)
  header_fields-Later http_get_ws line = line_end-Later r.method
  header_fields-Later http_null line = line_end-Later r.method

  to_content-Later :
      (o : Option ℕ) → LengthFits o → Later (length r.bytes) (r.pos + n) (to_content r n o)
  to_content-Later o l = (record { content_length = l; hlines = f.hlines }, refl, refl, omega arith)

  to_content_by :
      (o : Option ℕ)
      → LengthFits o
      → Later (length r.bytes) (r.pos + n) (elim o [
        | none ↦ to_content r n none
        | some l ↦ if l == 0 then fail r else to_content r n (some l)
      ])
  to_content_by none l = to_content-Later none tt
  to_content_by (some l) fits =
      Later-if (length r.bytes) (r.pos + n) (l == 0) _ _
        (λ _. record { content_length = f.content_length; hlines = f.hlines })
        (λ _. to_content-Later (some l) fits)

  pub blank_line-Later : (m : Method) → Later (length r.bytes) (r.pos + n) (blank_line m r n)
  unfolding blank_line
  blank_line-Later http_get = record { content_length = f.content_length; hlines = f.hlines }
  blank_line-Later http_get_ws = to_content-Later (some 8) (omega arith, omega arith)
  blank_line-Later http_post = to_content_by r.content_length f.content_length
  blank_line-Later http_null = to_content_by r.content_length f.content_length

pub add_line-Fits :
    (r : Request) (o : Option HeaderLine) → Fits r → LineFits? o → Fits (add_line r o)
unfolding add_line
add_line-Fits r none f l = f
add_line-Fits r (some h) f l = elim (Bool-cases (casecmp h.key (codes "host"))) [
  | inl e ↦ rw e (record { content_length = f.content_length; hlines = (l, f.hlines) })
  | inr e ↦ rw e (record { content_length = f.content_length; hlines = (l, f.hlines) })
]
