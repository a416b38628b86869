-- ===== src/Websocket/Shows.antt =====
-- How the buffer of the reader shows the view of it, and that the loop follows the view.
use ape_server.Prelude.{
  ℕ, suc, ◌%◌, ◌≤◌, ◌<◌, ◌≡◌, refl, sym, ap, subst, zero, Bool, true, false, ◌||◌, none, some, List,
  [], ◌∷◌, ◌++◌, append-nil, arith, ◌==◌, ltb, if◌then◌else◌, length, drop, length-append,
  Bool-cases, Option-cases, inl, inr,
}
use ape_server.Prelude.Text.{CString}
use ape_server.Websocket.{
  Step, ws_step_key, ws_step_start, ws_step_length, ws_step_short_length, ws_step_extended_length,
  ws_step_data, is_data, Reader, Output, header, unmask, count_down, end_frame, deliver, next_byte,
  State, start_at, prepend, frame_end, frame_loop,
}
use ape_server.Websocket.View.{
  View, Run, view_step, watch, delivered, output_before, followed, followed_nil,
}

abbrev is_start : Step → Bool
is_start ws_step_start = true
is_start _ = false

-- The buffer shows the view: the payload so far is what stands behind data_pos, which is set within
-- a payload alone; nothing is seen only where a frame starts.
pub record Shows (s : State) (v : View) : Type 0 where
  pub reader : s.reader ≡ v.reader
  pub body : v.body ≡ (if s.data_pos == 0 then [] else drop s.data_pos s.seen)
  pub inside : s.data_pos ≤ length s.seen
  pub in_data : (is_data v.reader.step || s.data_pos == 0) ≡ true
  pub begun : (is_start v.reader.step || ltb 0 (length s.seen)) ≡ true
  pub rest : s.rest ≡ []

-- A loop that follows a run gives its output and shows its view; where a run is lost, nothing is asked.
abbrev pub Follows : State × List Output → Run → Type 0
Follows l none = Unit
Follows (s, out) (some (v, out')) = (out ≡ out') × Shows s v

pub Follows-prepend :
    (out : List Output) (l : State × List Output) (r : Run)
    → Follows l r
    → Follows (prepend out l) (output_before out r)
Follows-prepend out l none f = tt
Follows-prepend out (s, more) (some (v, more')) (e, sh) = (ap (◌++◌ out) e, sh)

abbrev state_of : List ℕ → ℕ → Reader → State
state_of seen data_pos r = record { seen = seen; rest = []; data_pos = data_pos; reader = r }

drop-append : (n : ℕ) (xs ys : CString) → n ≤ length xs → drop n (xs ++ ys) ≡ drop n xs ++ ys
drop-append zero xs ys h = refl
drop-append (suc n) [] ys h = absurd (omega (arith, h))
drop-append (suc n) (x ∷ xs) ys h = drop-append n xs ys (omega (arith, h))

drop-length : (xs ys : CString) → drop (length xs) (xs ++ ys) ≡ ys
drop-length [] ys = refl
drop-length (x ∷ xs) ys = drop-length xs ys

not_start : (st : Step) → is_data st ≡ true → is_start st ≡ false
not_start ws_step_data e = refl
not_start ws_step_key e = refl
not_start ws_step_start e = cc
not_start ws_step_length e = refl
not_start ws_step_short_length e = refl
not_start ws_step_extended_length e = refl

module _ (b : ℕ) (seen : List ℕ) (data_pos : ℕ) (v : View)
    (sh : Shows (state_of seen data_pos v.reader) v) where
  begun_by : (c : ℕ) → ltb 0 (length (seen ++ c ∷ [])) ≡ true
  begun_by c = ground (arith, length-append seen (c ∷ []))

  -- a byte in front of the payload
  Shows-header :
      (r : Reader)
      → is_data v.reader.step ≡ false
      → Shows (state_of (seen ++ b ∷ []) data_pos r) (record { reader = r; body = v.body })
  Shows-header r e =
      let z : (data_pos == 0) ≡ true = rw e at sh.in_data in
      record {
        reader = refl;
        body = rw z (rw z at sh.body);
        inside = omega (arith, sh.inside, length-append seen (b ∷ []));
        in_data = ground (arith, z);
        begun = ground (arith, begun_by b);
        rest = refl;
      }

  seen_some : is_data v.reader.step ≡ true → 0 < length seen
  seen_some e = ground (arith, not_start v.reader.step e, sh.begun)

  pos_inside : start_at data_pos (length seen) ≤ length seen
  pos_inside = ground (arith, sh.inside)

  payload_so_far :
      (c : ℕ) → v.body ++ c ∷ [] ≡ drop (start_at data_pos (length seen)) (seen ++ c ∷ [])
  payload_so_far c = elim (Bool-cases (data_pos == 0)) [
    | inl z ↦ rw (z, rw z at sh.body) (sym (drop-length seen (c ∷ [])))
    | inr z ↦ rw (z, rw z at sh.body) (sym (drop-append data_pos seen (c ∷ []) sh.inside))
  ]

  Shows-data :
      (c : ℕ) (r : Reader)
      → is_data v.reader.step ≡ true
      → is_data r.step ≡ true
      → Shows
          (state_of (seen ++ c ∷ []) (start_at data_pos (length seen)) r)
          (record { reader = r; body = v.body ++ c ∷ [] })
  Shows-data c r e e' =
      let z : (start_at data_pos (length seen) == 0) ≡ false = ground (arith, seen_some e) in
      record {
        reader = refl;
        body = rw z (payload_so_far c);
        inside = omega (arith, pos_inside, length-append seen (c ∷ []));
        in_data = rw e' refl;
        begun = ground (arith, begun_by c);
        rest = refl;
      }

Shows-start :
    (seen : List ℕ) (r : Reader)
    → is_start r.step ≡ true
    → Shows (state_of seen 0 r) (record { reader = r; body = [] })
Shows-start seen r e = record {
  reader = refl;
  body = refl;
  inside = omega arith;
  in_data = ground arith;
  begun = ground (arith, e);
  rest = refl;
}

frame_end-Follows :
    (seen : List ℕ) (c : ℕ) (bs : List ℕ) (r : Reader) (payload : CString) (l : State × List Output)
    (d : List Output × Bool)
    → deliver (r.start % 16) payload ≡ d
    → Follows l (watch (record { reader = next_byte (end_frame r); body = [] }) bs)
    → Follows (frame_end seen c bs r payload l) (followed (delivered r d) (λ v. watch v bs))
unfolding frame_end watch delivered
frame_end-Follows seen c bs r payload l (out, true) e f = tt
frame_end-Follows seen c [] r payload l (out, false) e f =
    rw (frame_end, e) (sym (append-nil out), Shows-start [] (next_byte (end_frame r)) refl)
frame_end-Follows seen c (b ∷ bs) r payload l (out, false) e f =
    rw (frame_end, e)
      (Follows-prepend out l
        (watch (record { reader = next_byte (end_frame r); body = [] }) (b ∷ bs)) f)

pub frame_loop-Follows :
    (bs seen : List ℕ) (data_pos : ℕ) (v : View)
    → Shows (state_of seen data_pos v.reader) v
    → Follows (frame_loop seen bs data_pos v.reader) (watch v bs)
unfolding frame_loop watch view_step
frame_loop-Follows [] seen data_pos v sh = (refl, sh)
frame_loop-Follows (b ∷ bs) seen data_pos v sh = elim (Bool-cases (is_data v.reader.step)) [
  | inr e ↦ elim (Option-cases (header v.reader.step v.reader b)) [
    | inl masked ↦ rw (frame_loop, view_step, e, masked) tt
    | inr (r, run) ↦
        rw (frame_loop, view_step, e, run)
          (subst (λ x. Follows (frame_loop (seen ++ b ∷ []) bs data_pos (next_byte r)) x)
            (sym (followed_nil _))
            (frame_loop-Follows bs (seen ++ b ∷ []) data_pos
              (record { reader = next_byte r; body = v.body })
              (Shows-header b seen data_pos v sh (next_byte r) e)))
  ]
  | inl e ↦ elim (Bool-cases ((count_down v.reader).extended_length == 0)) [
    | inr more ↦
        rw (frame_loop, view_step, e, more)
          (subst
            (λ x.
              Follows
                (frame_loop (seen ++ unmask v.reader b ∷ []) bs (start_at data_pos (length seen))
                  (next_byte (count_down v.reader)))
                x)
            (sym (followed_nil _))
            (frame_loop-Follows bs (seen ++ unmask v.reader b ∷ [])
              (start_at data_pos (length seen))
              (record {
                reader = next_byte (count_down v.reader);
                body = v.body ++ unmask v.reader b ∷ [];
              })
              (Shows-data b seen data_pos v sh (unmask v.reader b) (next_byte (count_down v.reader))
                e e)))
    | inl last ↦
        rw (frame_loop, view_step, e, last)
          (let r = count_down v.reader in
            let c = unmask v.reader b in
            let payload = drop (start_at data_pos (length seen)) (seen ++ c ∷ []) in
            rw (payload_so_far b seen data_pos v sh c) (
              frame_end-Follows seen c bs r payload
                (frame_loop (seen ++ c ∷ []) bs 0 (next_byte (end_frame r)))
                (deliver (r.start % 16) payload) refl
                (frame_loop-Follows bs (seen ++ c ∷ []) 0
                  (record { reader = next_byte (end_frame r); body = [] })
                  (Shows-start (seen ++ c ∷ []) (next_byte (end_frame r)) refl))))
  ]
]
