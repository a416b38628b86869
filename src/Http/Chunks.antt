-- ===== src/Http/Chunks.antt =====
-- What a line does where more bytes are in the buffer: the same.
use ape_server.Prelude.{
  ℕ, ◌≡◌, refl, arith, Bool, true, false, ◌&&◌, ◌||◌, Bool-cases, inl, inr, Option, none, some,
  ◌++◌, ◌==◌, ltb, leb, if◌then◌else◌, drop,
}
use ape_server.Prelude.Text.{CString, codes, casecmp}
use ape_server.Http.Response.{ncasecmp}
use ape_server.Http.Header.{HeaderLine, is_blank, head, parse_header_line, atoi}
use ape_server.Http.Request.{
  Request, Method, http_get, http_post, http_get_ws, http_null, Next, stop, again, fail, to_content,
  blank_line, add_line, content_length_line, header_fields, header_line,
}
use ape_server.Http.Stable.{
  HasLine, Word, head-append, parse_header_line-append, atoi-append, ncasecmp-append, drop-ncasecmp,
}

-- the request with more bytes in its buffer
abbrev pub with_more : Request → CString → Request
with_more r t = record r { bytes = r.bytes ++ t }

abbrev length_key : CString
length_key = codes "content-length: "

-- a number that is not on the line of its name would be read from the next line
abbrev pub NumberOnLine : CString → Type 0
NumberOnLine s = (ncasecmp length_key s 16 && is_blank (head (drop 16 s))) ≡ false

length_key-Word : Word length_key
length_key-Word = (
  refl,
  (
    refl,
    (
      refl,
      (
        refl,
        (
          refl,
          (
            refl,
            (refl, (refl, (refl, (refl, (refl, (refl, (refl, (refl, (refl, (refl, tt)))))))))),
          ),
        ),
      ),
    ),
  ),
)

websocket_key-Word : Word (codes "Sec-WebSocket-Key1: ")
websocket_key-Word = (
  refl,
  (
    refl,
    (
      refl,
      (
        refl,
        (
          refl,
          (
            refl,
            (
              refl,
              (
                refl,
                (
                  refl,
                  (
                    refl,
                    (
                      refl,
                      (refl, (refl, (refl, (refl, (refl, (refl, (refl, (refl, (refl, tt))))))))),
                    ),
                  ),
                ),
              ),
            ),
          ),
        ),
      ),
    ),
  ),
)

-- where the content begins, as blank_line has it
abbrev pub to_content_by : Request → ℕ → Option ℕ → Next
to_content_by r n o = elim o [
  | none ↦ to_content r n none
  | some l ↦ if l == 0 then fail r else to_content r n (some l)
]

abbrev pub more_of : CString → Next → Next
more_of t (stop r events) = stop (with_more r t) events
more_of t (again r) = again (with_more r t)

abbrev pub Again : Next → Type 0
Again (stop r events) = ⊥
Again (again r) = Unit

module _ (t : CString) where
  -- header lines
  add_line-more :
      (r : Request) (o : Option HeaderLine)
      → add_line (with_more r t) o ≡ with_more (add_line r o) t
  unfolding add_line
  add_line-more r none = refl
  add_line-more r (some l) = elim (Bool-cases (casecmp l.key (codes "host"))) [
    | inl e ↦ rw e refl
    | inr e ↦ rw e refl
  ]

  content_length_line-more :
      (r : Request) (n : ℕ) (a : Bool × ℕ)
      → content_length_line (with_more r t) n a ≡ more_of t (content_length_line r n a)
  unfolding content_length_line
  content_length_line-more r n (false, l) = refl
  content_length_line-more r n (true, l) = elim (Bool-cases (l == 0 || ltb 51200 l)) [
    | inl e ↦ rw e refl
    | inr e ↦ rw e refl
  ]

  to_content-more :
      (r : Request) (n : ℕ) (o : Option ℕ)
      → Again (to_content_by r n o)
      → to_content_by (with_more r t) n o ≡ more_of t (to_content_by r n o)
  to_content-more r n none a = refl
  to_content-more r n (some l) a = elim (Bool-cases (l == 0)) [
    | inl e ↦ absurd (rw e at a)
    | inr e ↦ rw e refl
  ]

  blank_line-more :
      (m : Method) (r : Request) (n : ℕ)
      → Again (blank_line m r n)
      → blank_line m (with_more r t) n ≡ more_of t (blank_line m r n)
  unfolding blank_line
  blank_line-more http_get r n a = absurd a
  blank_line-more http_get_ws r n a = refl
  blank_line-more http_post r n a = to_content-more r n r.content_length a
  blank_line-more http_null r n a = to_content-more r n r.content_length a

-- the buffer grows by t, and the string in it by u
module _ (t u : CString) where
  header_fields-more :
      (m : Method) (r : Request) (s : CString) (n : ℕ)
      → HasLine s
      → NumberOnLine s
      → header_fields m (with_more r t) (s ++ u) n ≡ more_of t (header_fields m r s n)
  unfolding header_fields
  header_fields-more http_post r s n h number =
      let same = ncasecmp-append u length_key s 16 length_key-Word h in
      elim (Bool-cases (leb n 25 && ncasecmp length_key s 16)) [
        | inr e ↦ rw (same, e) refl
        | inl e ↦
            let begins : ncasecmp length_key s 16 ≡ true = ground (arith, e) in
            let (there, line) = drop-ncasecmp u length_key s length_key-Word h begins in
            let digit : is_blank (head (drop 16 s)) ≡ false = rw begins at number in
            rw (same, e, there, atoi-append u (drop 16 s) line digit)
              (content_length_line-more t r n (atoi (drop 16 s)))
      ]
  header_fields-more http_get r s n h number =
      let same = ncasecmp-append u (codes "Sec-WebSocket-Key1: ") s 20 websocket_key-Word h in
      elim (Bool-cases (ncasecmp (codes "Sec-WebSocket-Key1: ") s 20)) [
        | inl e ↦ rw (same, e) refl
        | inr e ↦ rw (same, e) refl
      ]
  header_fields-more http_get_ws r s n h number = refl
  header_fields-more http_null r s n h number = refl

  pub header_line-more :
      (r : Request) (s : CString) (n : ℕ)
      → HasLine s
      → NumberOnLine s
      → Again (header_line r s n)
      → header_line (with_more r t) (s ++ u) n ≡ more_of t (header_line r s n)
  unfolding header_line
  header_line-more r s n h number a =
      let first = head-append u s h in
      elim (Bool-cases (n == 1 || (n == 2 && head s == 13))) [
        | inl blank ↦ rw (first, blank) (blank_line-more t r.method r n (rw blank at a))
        | inr field ↦
            rw
              (
                first,
                field,
                parse_header_line-append u s h,
                add_line-more t r (parse_header_line s),
              )
              (header_fields-more r.method (add_line r (parse_header_line s)) s n h number)
      ]
