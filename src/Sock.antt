-- ===== src/Sock.antt =====
-- src/sock.c: sending on a non-blocking socket. What the kernel does not take at once is queued in
-- the socket's buffer, and sent when the socket is writable again.
-- The kernel is a list of answers to `write`, one for each call.
pub mod Stream
pub mod Say
use ape_server.Prelude.{
  ℕ, zero, suc, ◌+◌, ◌*◌, ◌/◌, Bool, true, false, Option, none, some, List, [], ◌∷◌, ◌++◌, ltb,
  ◌==◌, if◌then◌else◌, length, take, drop,
}
use ape_server.Prelude.Text.{CString}

-- write() takes n + 1 bytes (at most what it is given), would block, or fails.
pub data Write : Type 0 where
  wrote : ℕ → Write
  blocked failed : Write

-- struct _socks_bufout, with the descriptor, the bytes that the kernel has taken, the flag
-- burn_after_writing of the ape_socket, and whether shutdown() was called.
-- The buffer's field buflen is the length of `buf`.
pub record Socket : Type 0 where
  pub fd : ℕ
  pub buf : Option CString
  pub allocsize : ℕ
  pub wire : CString
  pub burn_after_writing : ℕ
  pub shut : Bool
  pub kernel : List Write

-- (n + 0x07ff) & (~0x07ff)
unfoldable pub round_up : ℕ → ℕ
round_up n = (n + 2047) / 2048 * 2048

-- the buffer for bytes that could not be written: a new one
unfoldable pub enqueue_new : CString → Socket → Socket
unfolding round_up
enqueue_new rest s = record s { buf = some rest; allocsize = round_up (length rest) }

-- and one that is extended
unfoldable pub enqueue_more : CString → CString → Socket → Socket
unfolding round_up
enqueue_more b rest s =
    let n = length b + length rest in
    record s {
      buf = some (b ++ rest);
      allocsize = if ltb s.allocsize n then round_up n else s.allocsize;
    }

abbrev pub set_burn : Bool → Socket → Socket
set_burn burn s = record s { burn_after_writing = if burn then 1 else s.burn_after_writing }

-- The loop of sendbin for a socket with no buffer; each round takes an answer of the kernel. A
-- kernel that says no more blocks.
unfoldable pub send_loop : List Write → CString → Bool → Socket → Socket × Bool
unfolding enqueue_new
send_loop ws [] burn s = (record s { kernel = ws; shut = if burn then true else s.shut }, true)
send_loop [] (b ∷ bs) burn s =
    (set_burn burn (enqueue_new (b ∷ bs) (record s { kernel = [] })), false)
send_loop (wrote n ∷ ws) (b ∷ bs) burn s =
    send_loop ws (drop n bs) burn (record s { wire = s.wire ++ b ∷ take n bs })
send_loop (blocked ∷ ws) (b ∷ bs) burn s =
    (set_burn burn (enqueue_new (b ∷ bs) (record s { kernel = ws })), false)
send_loop (failed ∷ ws) (b ∷ bs) burn s = (record s { kernel = ws }, false)

-- `if (g_ape->bufout[sock].buf == NULL)`: a socket with a buffer queues whatever there is
unfoldable pub send_by : Option CString → CString → Bool → Socket → Socket × Bool
unfolding send_loop enqueue_more
send_by none bin burn s = send_loop s.kernel bin burn s
send_by (some b) [] burn s = (record s { shut = if burn then true else s.shut }, true)
send_by (some b) (c ∷ cs) burn s = (set_burn burn (enqueue_more b (c ∷ cs) s), false)

unfoldable pub sendbin : CString → Bool → Socket → Socket × Bool
unfolding send_by
sendbin bin burn s =
    if s.fd == 0
    then (record s { shut = if burn then true else s.shut }, true)
    else send_by s.buf bin burn s

-- The loop of sendqueue: `b` is the buffer, `rest` what of it is still to be written.
unfoldable pub queue_loop : List Write → CString → CString → Socket → Socket × Bool
queue_loop ws b [] s = (record s { kernel = ws; buf = none }, true)
queue_loop [] b (c ∷ cs) s = (record s { kernel = []; buf = some (c ∷ cs) }, false)
queue_loop (wrote n ∷ ws) b (c ∷ cs) s =
    queue_loop ws b (drop n cs) (record s { wire = s.wire ++ c ∷ take n cs })
queue_loop (blocked ∷ ws) b (c ∷ cs) s = (record s { kernel = ws; buf = some (c ∷ cs) }, false)
queue_loop (failed ∷ ws) b (c ∷ cs) s = (record s { kernel = ws; buf = some b }, false)

unfoldable pub flush : Option CString → Socket → Socket × Bool
unfolding queue_loop
flush none s = (s, true)
flush (some b) s = queue_loop s.kernel b b s

unfoldable pub sendqueue : Socket → Socket × Bool
unfolding flush
sendqueue s = flush s.buf s

-- `1` is a shutdown at once, `2` one after the buffer is sent
unfoldable pub safe_shutdown : Socket → Socket
safe_shutdown s = elim s.buf [
  | none ↦ record s { shut = true }
  | some b ↦ record s { burn_after_writing = 2 }
]
