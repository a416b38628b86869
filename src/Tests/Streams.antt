-- ===== src/Tests/Streams.antt =====
-- A socket whose kernel takes two bytes and then blocks, and two pools of raws.
use ape_server.Prelude.{
  Bool, ℕ, ◌≡◌, refl, true, false, none, some, [], ◌∷◌, ◌++◌, take, arith, if◌then◌else◌, ◌==◌,
  count,
}
use ape_server.Prelude.Text.{codes}
use ape_server.Sock.{wrote, blocked, Socket, sendbin, sendqueue}
use ape_server.Sock.Stream.{IsSocket, Sent, sendbin-Sent, Flushed, capacity, sendqueue-Flushed}
use ape_server.Sock.Say.{Out}
use ape_server.Http.Response.{Field}
use ape_server.Raw.Heap.{Raw, lo, Heap, Owns}
use ape_server.Raw.Pool.{Pool, post, new_pool, HoldsRaws, new_pool-HoldsRaws, post-HoldsRaws}
use ape_server.Raw.Send.{Pools, ws_ietf_07, Client, Defaults, send_raws}
use ape_server.Raw.Answer.{IsAnswered, send_raws-IsAnswered}
use ape_server.Transports.{websocket_ietf, transport_start}
use ape_server.Raw.Whole.{waiting}

abbrev pub narrow : Socket
narrow = record {
  fd = 3;
  buf = none;
  allocsize = 0;
  wire = [];
  burn_after_writing = 0;
  shut = false;
  kernel = wrote 1 ∷ blocked ∷ wrote 9 ∷ [];
}

pub narrow-IsSocket : IsSocket narrow
narrow-IsSocket = record {
  descriptor = refl;
  kernel = (λ e. cc, (λ e. cc, (λ e. cc, tt)));
  room = omega arith;
  queued = λ e. cc;
}

sendbin-Sent_example : Sent narrow (codes "abcd") (sendbin (codes "abcd") false narrow)
sendbin-Sent_example = sendbin-Sent (codes "abcd") false narrow narrow-IsSocket

abbrev queued : Socket
queued = record narrow { buf = some (codes "cd"); allocsize = 2048; kernel = wrote 9 ∷ [] }

queued-IsSocket : IsSocket queued
queued-IsSocket = record {
  descriptor = refl;
  kernel = (λ e. cc, tt);
  room = omega arith;
  queued = λ e. cc;
}

sendqueue-Flushed_example :
    Flushed queued (sendqueue queued)
    × ((sendqueue queued).0.wire ≡ queued.wire ++ take (capacity queued.kernel) (codes "cd"))
sendqueue-Flushed_example = sendqueue-Flushed queued queued-IsSocket

abbrev out : Out
out = record { socket = narrow; finish = true }

abbrev field : Field
field = record { key = codes "Pragma"; value = codes "no-cache" }

abbrev raw : Raw
raw = record { content = codes "{}"; priority = lo; refcount = 1 }

abbrev heap : Heap
heap r = if r == 5 then some raw else if r == 6 then some raw else none

heap-Owns : Owns heap (waiting (5 ∷ []) (6 ∷ []))
unfolding count
heap-Owns r = ground arith

pool_of_one : (r : ℕ) → (q : Pool) × (post r (new_pool 8) ≡ some q) × HoldsRaws q (r ∷ [])
pool_of_one r = post-HoldsRaws r (new_pool 8) [] (new_pool-HoldsRaws 7)

abbrev pools : Pools
pools = record { low = (pool_of_one 6).0; high = (pool_of_one 5).0; nraw = 2 }

abbrev client : Client
client = record {
  transport = websocket_ietf;
  version = ws_ietf_07;
  headers = record { sent = true; content = none };
  pools = pools;
  socket = narrow;
}

abbrev defaults : Defaults
defaults = record { xhr = []; sse = []; jsonp_header = []; default_header = [] }

send_raws-IsAnswered_example :
    (c' : Client) × (h' : Heap) × (finish : Bool) × (send_raws
        (transport_start [])
        defaults
        client
        heap
      ≡ some (c', h', finish))
    × IsAnswered (transport_start []) client (waiting (5 ∷ []) (6 ∷ [])) heap c' h'
send_raws-IsAnswered_example =
    send_raws-IsAnswered (transport_start []) defaults client (5 ∷ []) (6 ∷ []) heap refl
      (pool_of_one 5).2 (pool_of_one 6).2 heap-Owns (omega arith) narrow-IsSocket
