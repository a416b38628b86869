-- ===== src/Sock/Stream.antt =====
-- A connection is a stream: the bytes that the kernel has taken and those in the buffer are, in
-- order, all that was sent.
use ape_server.Prelude.{
  ℕ, zero, suc, ◌+◌, ◌≤◌, ◌≡◌, ◌≢◌, refl, ap, Bool, true, false, Option, none, some, List, [], ◌∷◌,
  ◌++◌, ltb, ◌==◌, if◌then◌else◌, length, take, drop, All, arith, append_assoc, append-nil,
  length-append, sym, ◌⊎◌, inl, inr, ◌∙◌, subst,
}
use ape_server.Prelude.Text.{CString}
use ape_server.Sock.{
  Write, wrote, blocked, failed, Socket, round_up, enqueue_new, set_burn, send_loop, send_by,
  sendbin, flush, enqueue_more, queue_loop, sendqueue,
}

abbrev pub buffered : Option CString → CString
buffered none = []
buffered (some b) = b

-- everything that was sent on the socket
abbrev pub stream : Socket → CString
stream s = s.wire ++ buffered s.buf

-- the kernel reports no error
abbrev pub Works : List Write → Type 0
Works ws = All (λ w. w ≢ failed) ws

-- A buffer is not empty and not longer than its memory; the socket has a descriptor.
pub record IsSocket (s : Socket) : Type 0 where
  pub descriptor : (s.fd == 0) ≡ false
  pub kernel : Works s.kernel
  pub room : length (buffered s.buf) ≤ s.allocsize
  pub queued : s.buf ≢ some []

take-append-drop : (n : ℕ) (xs : CString) → take n xs ++ drop n xs ≡ xs
take-append-drop zero xs = refl
take-append-drop (suc n) [] = refl
take-append-drop (suc n) (x ∷ xs) = rw (take-append-drop n xs)

round_up-le : (n : ℕ) → n ≤ round_up n
unfolding round_up
round_up-le n = omega arith

-- What a send leaves: a valid socket, and the stream with the bytes behind it. The result 0 says
-- that bytes are queued, and 1 that none are, unless there was nothing to send.
pub record Sent (s : Socket) (bin : CString) (r : Socket × Bool) : Type 0 where
  pub valid : IsSocket r.0
  pub bytes : stream r.0 ≡ stream s ++ bin
  pub unfinished : r.1 ≡ false → r.0.buf ≢ none
  pub finished : r.1 ≡ true → (r.0.buf ≡ s.buf) × ((bin ≡ []) ⊎ (s.buf ≡ none))

-- The bytes that are left become the buffer.
enqueue_fresh :
    (ws : List Write) (b : ℕ) (bs : CString) (burn : Bool) (s : Socket)
    → s.buf ≡ none
    → (s.fd == 0) ≡ false
    → Works ws
    → Sent s (b ∷ bs) (set_burn burn (enqueue_new (b ∷ bs) (record s { kernel = ws })), false)
unfolding enqueue_new
enqueue_fresh ws b bs burn s e fd w = rw e (record {
  valid = record {
    descriptor = fd;
    kernel = w;
    room = round_up-le (suc (length bs));
    queued = λ p. cc;
  };
  bytes = rw append-nil;
  unfinished = λ _ p. cc;
  finished = λ p. cc;
})

wrote_some :
    (wire : CString) (b n : ℕ) (bs : CString) (buf : Option CString)
    → buf ≡ none
    → (wire ++ b ∷ take n bs) ++ buffered buf ++ drop n bs ≡ (wire ++ buffered buf) ++ b ∷ bs
wrote_some wire b n bs buf e = rw e (
    rw (append-nil (wire ++ b ∷ take n bs), append-nil wire)
      (append_assoc wire (b ∷ take n bs) (drop n bs) ∙ rw (take-append-drop n bs)))

send_loop-Sent :
    (ws : List Write) (bin : CString) (burn : Bool) (s : Socket)
    → s.buf ≡ none
    → (s.fd == 0) ≡ false
    → Works ws
    → Sent s bin (send_loop ws bin burn s)
unfolding send_loop
send_loop-Sent ws [] burn s e fd w = record {
  valid = record { descriptor = fd; kernel = w; room = rw e (omega arith); queued = λ p. cc };
  bytes = sym (append-nil _);
  unfinished = λ p. cc;
  finished = λ p. (refl, inl refl);
}
send_loop-Sent [] (b ∷ bs) burn s e fd w = enqueue_fresh [] b bs burn s e fd w
send_loop-Sent (wrote n ∷ ws) (b ∷ bs) burn s e fd (w, ws') =
    let s' = record s { wire = s.wire ++ b ∷ take n bs } in
    let t = send_loop-Sent ws (drop n bs) burn s' e fd ws' in
    record {
      valid = t.valid;
      bytes = t.bytes ∙ wrote_some s.wire b n bs s.buf e;
      unfinished = t.unfinished;
      finished = λ p. ((t.finished p).0, inr e);
    }
send_loop-Sent (blocked ∷ ws) (b ∷ bs) burn s e fd (w, ws') = enqueue_fresh ws b bs burn s e fd ws'
send_loop-Sent (failed ∷ ws) (b ∷ bs) burn s e fd (w, ws') = absurd (w refl)

length_of_empty : (x : CString) → some x ≡ some [] → length x ≡ 0
length_of_empty x p = ap (λ o. length (buffered o)) p

enqueue_room : (n a : ℕ) → n ≤ (if ltb a n then round_up n else a)
enqueue_room n a = ground (arith, round_up-le n)

enqueue_behind :
    (c : ℕ) (cs b : CString) (burn : Bool) (s : Socket)
    → s.buf ≡ some b
    → IsSocket s
    → Sent s (c ∷ cs) (set_burn burn (enqueue_more b (c ∷ cs) s), false)
unfolding enqueue_more
enqueue_behind c cs b burn s e v = record {
  valid = record {
    descriptor = v.descriptor;
    kernel = v.kernel;
    room = rw (length-append b (c ∷ cs)) (enqueue_room (length b + suc (length cs)) s.allocsize);
    queued = λ p. absurd (omega (arith, length_of_empty (b ++ c ∷ cs) p, length-append b (c ∷ cs)));
  };
  bytes = sym (ap (λ o. (s.wire ++ buffered o) ++ c ∷ cs) e ∙ append_assoc s.wire b (c ∷ cs));
  unfinished = λ _ p. cc;
  finished = λ p. cc;
}

send_by-Sent :
    (buf : Option CString) (bin : CString) (burn : Bool) (s : Socket)
    → s.buf ≡ buf
    → IsSocket s
    → Sent s bin (send_by buf bin burn s)
unfolding send_by
send_by-Sent none bin burn s e v = send_loop-Sent s.kernel bin burn s e v.descriptor v.kernel
send_by-Sent (some b) [] burn s e v = record {
  valid = record { descriptor = v.descriptor; kernel = v.kernel; room = v.room; queued = v.queued };
  bytes = sym (append-nil _);
  unfinished = λ p. cc;
  finished = λ p. (refl, inl refl);
}
send_by-Sent (some b) (c ∷ cs) burn s e v = enqueue_behind c cs b burn s e v

-- On a socket with a descriptor, whose buffer is not empty and fits its memory, and while the
-- kernel reports no error, a send adds its bytes to those that were sent and queued, in order,
-- however the kernel takes them, and keeps the buffer so. It says 0 only if a buffer is left, and
-- 1 only if none was touched and the bytes are all written.
pub sendbin-Sent :
    (bin : CString) (burn : Bool) (s : Socket) → IsSocket s → Sent s bin (sendbin bin burn s)
unfolding sendbin
sendbin-Sent bin burn s v = rw v.descriptor (send_by-Sent s.buf bin burn s refl v)

length-drop-le : (n : ℕ) (xs : CString) → length (drop n xs) ≤ length xs
length-drop-le zero xs = omega arith
length-drop-le (suc n) [] = omega arith
length-drop-le (suc n) (x ∷ xs) = omega (arith, length-drop-le n xs)

-- What the queue leaves: the same stream, and the result 1 exactly if the kernel has it all.
pub record Flushed (s : Socket) (r : Socket × Bool) : Type 0 where
  pub valid : IsSocket r.0
  pub bytes : stream r.0 ≡ stream s
  pub unfinished : r.1 ≡ false → r.0.buf ≢ none
  pub finished : r.1 ≡ true → r.0.buf ≡ none

left_over :
    (ws : List Write) (c : ℕ) (cs : CString) (s s₀ : Socket)
    → suc (length cs) ≤ s.allocsize
    → (s.fd == 0) ≡ false
    → Works ws
    → s.wire ++ c ∷ cs ≡ stream s₀
    → Flushed s₀ (record s { kernel = ws; buf = some (c ∷ cs) }, false)
left_over ws c cs s s₀ room fd w e = record {
  valid = record { descriptor = fd; kernel = w; room = room; queued = λ p. cc };
  bytes = e;
  unfinished = λ _ p. cc;
  finished = λ p. cc;
}

queue_loop-Flushed :
    (ws : List Write) (b rest : CString) (s s₀ : Socket)
    → length rest ≤ s.allocsize
    → (s.fd == 0) ≡ false
    → Works ws
    → s.wire ++ rest ≡ stream s₀
    → Flushed s₀ (queue_loop ws b rest s)
unfolding queue_loop
queue_loop-Flushed ws b [] s s₀ room fd w e = record {
  valid = record { descriptor = fd; kernel = w; room = omega arith; queued = λ p. cc };
  bytes = e;
  unfinished = λ p. cc;
  finished = λ _. refl;
}
queue_loop-Flushed [] b (c ∷ cs) s s₀ room fd w e = left_over [] c cs s s₀ room fd w e
queue_loop-Flushed (wrote n ∷ ws) b (c ∷ cs) s s₀ room fd (w, ws') e =
    queue_loop-Flushed ws b (drop n cs) (record s { wire = s.wire ++ c ∷ take n cs }) s₀
      (omega (arith, length-drop-le n cs)) fd ws'
      (append_assoc s.wire (c ∷ take n cs) (drop n cs) ∙ (rw (take-append-drop n cs) e))
queue_loop-Flushed (blocked ∷ ws) b (c ∷ cs) s s₀ room fd (w, ws') e =
    left_over ws c cs s s₀ room fd ws' e
queue_loop-Flushed (failed ∷ ws) b (c ∷ cs) s s₀ room fd (w, ws') e = absurd (w refl)

flush-Flushed :
    (buf : Option CString) (s : Socket) → s.buf ≡ buf → IsSocket s → Flushed s (flush buf s)
unfolding flush
flush-Flushed none s e v = record {
  valid = v;
  bytes = refl;
  unfinished = λ p. cc;
  finished = λ _. e;
}
flush-Flushed (some b) s e v =
    queue_loop-Flushed s.kernel b b s s (subst (λ o. length (buffered o) ≤ s.allocsize) e v.room)
      v.descriptor v.kernel (ap (λ o. s.wire ++ buffered o) (sym e))

-- how many bytes the kernel takes before it blocks, if there are as many
abbrev pub capacity : List Write → ℕ
capacity [] = 0
capacity (wrote n ∷ ws) = suc n + capacity ws
capacity (_ ∷ ws) = 0

take_nothing : (n : ℕ) → take {A = ℕ} n [] ≡ []
take_nothing zero = refl
take_nothing (suc n) = refl

take-suc : (n m x : ℕ) (xs : CString) → x ∷ take (n + m) xs ≡ take (suc n + m) (x ∷ xs)
take-suc n m x xs = ap (λ k. take k (x ∷ xs)) {x = suc (n + m)} {y = suc n + m} (omega arith)

take-take-drop : (n m : ℕ) (xs : CString) → take n xs ++ take m (drop n xs) ≡ take (n + m) xs
take-take-drop zero m xs = ap (λ k. take k xs) {x = m} {y = 0 + m} (omega arith)
take-take-drop (suc n) m [] = take_nothing m ∙ sym (take_nothing (suc n + m))
take-take-drop (suc n) m (x ∷ xs) = ap (λ l. x ∷ l) (take-take-drop n m xs) ∙ take-suc n m x xs

queue_loop-take :
    (ws : List Write) (b rest : CString) (s : Socket)
    → Works ws
    → (queue_loop ws b rest s).0.wire ≡ s.wire ++ take (capacity ws) rest
unfolding queue_loop
queue_loop-take ws b [] s w =
    sym (ap (λ l. s.wire ++ l) (take_nothing (capacity ws)) ∙ append-nil s.wire)
queue_loop-take [] b (c ∷ cs) s w = sym (append-nil s.wire)
queue_loop-take (wrote n ∷ ws) b (c ∷ cs) s (w, ws') =
    queue_loop-take ws b (drop n cs) (record s { wire = s.wire ++ c ∷ take n cs }) ws'
    ∙ append_assoc s.wire (c ∷ take n cs) (take (capacity ws) (drop n cs))
    ∙ ap (λ l. s.wire ++ l)
        (ap (λ l. c ∷ l) (take-take-drop n (capacity ws) cs) ∙ take-suc n (capacity ws) c cs)
queue_loop-take (blocked ∷ ws) b (c ∷ cs) s w = sym (append-nil s.wire)
queue_loop-take (failed ∷ ws) b (c ∷ cs) s (w, ws') = absurd (w refl)

flush-take :
    (buf : Option CString) (s : Socket)
    → Works s.kernel
    → (flush buf s).0.wire ≡ s.wire ++ take (capacity s.kernel) (buffered buf)
unfolding flush
flush-take none s w =
    sym (ap (λ l. s.wire ++ l) (take_nothing (capacity s.kernel)) ∙ append-nil s.wire)
flush-take (some b) s w = queue_loop-take s.kernel b b s w

-- On a socket with a descriptor, whose buffer is not empty and fits its memory, and while the
-- kernel reports no error, sendqueue writes of the buffer as many bytes as the kernel takes before
-- it blocks, or all of them, and keeps the others queued, in order, and the buffer so. It says 0
-- only if a buffer is left, and 1 only if none is.
pub sendqueue-Flushed :
    (s : Socket)
    → IsSocket s
    → Flushed s (sendqueue s)
      × ((sendqueue s).0.wire ≡ s.wire ++ take (capacity s.kernel) (buffered s.buf))
unfolding sendqueue
sendqueue-Flushed s v = (flush-Flushed s.buf s refl v, flush-take s.buf s v.kernel)
