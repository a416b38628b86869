-- ===== src/Users/Connections.antt =====
-- The connections ("subusers") of a user: getsubuser, addsubuser, delsubuser, clear_subusers and
-- do_died of src/users.c, post_raw_sub, post_raw, post_raw_restricted and destroy_raw_pool of
-- src/raw.c. `none` is an access through NULL or to memory that is freed.

pub mod Counted
pub mod Posting
pub mod Inheriting
pub mod Clearing
use ape_server.Prelude.{
  ℕ, zero, suc, ◌+◌, ◌-◌, ◌||◌, Bool, true, false, Option, none, some, List, [], ◌∷◌, ◌++◌, ◌==◌,
  ltb, if◌then◌else◌, length, get_elem?, update, is_some,
}
use ape_server.Prelude.Text.{CString, str_eq}
use ape_server.Strings.Numbers.{ℤ, pos}
use ape_server.Raw.Heap.{Heap, Raw, Priority, lo, hi, copy_raw_z, free_raw}
use ape_server.Raw.Pool.{Pool, new_pool, post}
use ape_server.Raw.Send.{◌>>=◌, Pools}

-- _subuser, at an address. `headers` says that headers.content is there.
pub record Connection : Type 0 where
  pub address : ℕ
  pub channel : CString
  pub client : ℕ
  pub alive : Bool
  pub pools : Pools
  pub idle : ℕ
  pub need_update : Bool
  pub wait_for_free : Bool
  pub burn_after_writing : Bool
  pub headers_sent : Bool
  pub headers : Bool
  pub current_chl : ℤ

-- a user's connections, the raws, the clients that are shut down and the connections that are freed
pub record World : Type 0 where
  pub heap : Heap
  pub subuser : List Connection
  pub nsub : ℕ
  pub shut : List ℕ
  pub freed : List ℕ

unfoldable pub getsubuser : List Connection → CString → Option Connection
getsubuser [] channel = none
getsubuser (c ∷ cs) channel = if str_eq c.channel channel then some c else getsubuser cs channel

abbrev pub put_low : Connection → Pool → Connection
put_low c p = record c { pools = record { low = p; high = c.pools.high; nraw = c.pools.nraw + 1 } }

abbrev pub put_high : Connection → Pool → Connection
put_high c p = record c { pools = record { low = c.pools.low; high = p; nraw = c.pools.nraw + 1 } }

unfoldable pub post_by : Priority → ℕ → Connection → Option Connection
post_by lo r c = post r c.pools.low >>= λ p. some (put_low c p)
post_by hi r c = post r c.pools.high >>= λ p. some (put_high c p)

unfoldable pub post_raw_sub : ℕ → Heap → Connection → Option Connection
unfolding post_by
post_raw_sub r h c = h r >>= λ raw. post_by raw.priority r c

-- post_raw_sub(copy_raw_z(raw), sub)
unfoldable pub post_copy : ℕ → Heap → Connection → Option (Heap × Connection)
unfolding post_raw_sub
post_copy r h c = copy_raw_z r h >>= λ h'. post_raw_sub r h' c >>= λ c'. some (h', c')

abbrev pub consed : Connection → Heap × List Connection → Option (Heap × List Connection)
consed c (h, cs) = some (h, c ∷ cs)

unfoldable pub post_raw : ℕ → Heap → List Connection → Option (Heap × List Connection)
unfolding post_copy
post_raw r h [] = some (h, [])
post_raw r h (c ∷ cs) = do (h', c') ← post_copy r h c; rest ← post_raw r h' cs; consed c' rest

-- with the exception of the connection at an address
unfoldable pub post_raw_restricted :
    ℕ → ℕ → Heap → List Connection → Option (Heap × List Connection)
unfolding post_copy
post_raw_restricted r sub h [] = some (h, [])
post_raw_restricted r sub h (c ∷ cs) = elim (c.address == sub) [
  | true ↦ do rest ← post_raw_restricted r sub h cs; consed c rest
  | false ↦ do (h', c') ← post_copy r h c; rest ← post_raw_restricted r sub h' cs; consed c' rest
]

unfoldable pub destroy_raw_pool : List (Option ℕ) → Heap → Option Heap
destroy_raw_pool [] h = some h
destroy_raw_pool (none ∷ cells) h = destroy_raw_pool cells h
destroy_raw_pool (some r ∷ cells) h = free_raw r h >>= λ h'. destroy_raw_pool cells h'

-- the raws of the previous connection, from the first cell to the first that is empty; behind the
-- last cell is NULL
unfoldable pub inherit : List (Option ℕ) → Heap → Connection → Option (Heap × Connection)
unfolding post_copy
inherit [] h c = none
inherit (none ∷ cells) h c = some (h, c)
inherit (some r ∷ cells) h c = do
  raw ← h r
  (h', c') ←
      post_copy r (if raw.refcount == 0 then update h r (some (record raw { refcount = 1 })) else h)
        c
  inherit cells h' c'

abbrev pub new_connection : ℕ → ℕ → CString → ℕ → Connection
new_connection address client channel time = record {
  address = address;
  channel = channel;
  client = client;
  alive = false;
  pools = record { low = new_pool 32; high = new_pool 8; nraw = 0 };
  idle = time;
  need_update = false;
  wait_for_free = false;
  burn_after_writing = false;
  headers_sent = false;
  headers = false;
  current_chl = pos 0;
}

-- if (sub->next != NULL && sub->next->raw_pools.low.nraw)
unfoldable pub inherit_from : List Connection → Heap → Connection → Option (Heap × Connection)
unfolding inherit
inherit_from [] h c = some (h, c)
inherit_from (p ∷ cs) h c = elim (p.pools.low.nraw == 0) [
  | true ↦ some (h, c)
  | false ↦ inherit p.pools.low.cells h c
]

abbrev pub max_host_length : ℕ
max_host_length = 256

abbrev pub add_connection : World → Heap × Connection → World
add_connection w (h, c) = record w { heap = h; subuser = c ∷ w.subuser; nsub = w.nsub + 1 }

-- the connection is the first of the world that is left, and NULL is the world as it was
unfoldable pub addsubuser : ℕ → ℕ → CString → ℕ → World → Option World
unfolding getsubuser inherit_from
addsubuser address client channel time w =
    if is_some (getsubuser w.subuser channel) || ltb max_host_length (length channel)
    then some w
    else inherit_from w.subuser w.heap (new_connection address client channel time) >>= λ r.
        some (add_connection w r)

-- do_died, for a connection out of the list
unfoldable pub do_died : Connection → World → Connection × World
do_died c w =
    if c.alive
    then (
      record c { alive = false; headers_sent = false; headers = false },
      record w { shut = c.client ∷ w.shut },
    )
    else (c, w)

-- what delsubuser does with the connection that it takes out
unfoldable pub dismiss : Connection → World → World
unfolding do_died
dismiss c w =
    if c.alive
    then (do_died (record c { wait_for_free = true }) w).1
    else record w { freed = c.address ∷ w.freed }

-- delsubuser(&user->subuser); the other lists of connections are shorter ones
unfoldable pub delsubuser : World → Option World
unfolding destroy_raw_pool dismiss
delsubuser w = elim w.subuser [
  | [] ↦ none
  | c ∷ cs ↦ do
    h ← destroy_raw_pool c.pools.low.cells w.heap
    h' ← destroy_raw_pool c.pools.high.cells h
    some (dismiss c (record w { heap = h'; subuser = cs; nsub = w.nsub - 1 }))
]

-- the loop, which goes on until the list is empty: one call for each connection of the list
unfoldable pub clear_by : List Connection → World → Option World
unfolding delsubuser
clear_by [] w = some w
clear_by (c ∷ cs) w = delsubuser w >>= λ w'. clear_by cs w'

unfoldable pub clear_subusers : World → Option World
unfolding clear_by
clear_subusers w = clear_by w.subuser w
