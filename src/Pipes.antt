-- ===== src/Pipes.antt =====
-- src/pipe.c: pipes, their identifiers and their links. A pipe is at an address, and `hash_pubid`
-- holds the addresses; a callback is a number.
pub mod Known
use ape_server.Prelude.{
  ℕ, ◌≡◌, Bool, true, false, not, ◌&&◌, ◌||◌, Option, none, some, is_some, List, [], ◌∷◌, ◌++◌,
  ◌==◌, if◌then◌else◌, length, update,
}
use ape_server.Prelude.Text.{CString}
use ape_server.Raw.Send.{◌>>=◌}
use ape_server.Hash.{Htbl, hashtbl_append, hashtbl_erase, hashtbl_seek}

pub data PipeType : Type 0 where
  channel_pipe user_pipe proxy_pipe custom_pipe : PipeType

-- _pipe_link: plink and on_unlink
pub record PipeLink : Type 0 where
  pub plink : ℕ
  pub on_unlink : Option ℕ

-- _transpipe; `pipe` is the address of a user, a channel or a proxy
pub record Transpipe : Type 0 where
  pub pipe : ℕ
  pub type : PipeType
  pub link : List PipeLink
  pub pubid : CString

-- a call of on_unlink
pub record Unlinked : Type 0 where
  pub callback : ℕ
  pub origin : ℕ
  pub plink : ℕ

-- the pipes that are allocated, and hPubid and hSessid of acetables
pub record Pipes : Type 0 where
  pub heap : ℕ → Option Transpipe
  pub hash_pubid : Htbl ℕ
  pub hash_sessid : Htbl ℕ

-- strlen(pubid) != 32
unfoldable pub get_pipe : CString → Pipes → Option ℕ
get_pipe pubid s = if length pubid == 32 then hashtbl_seek s.hash_pubid (some pubid) else none

unfoldable pub seek_user_id : CString → Pipes → Option ℕ
seek_user_id sessid s =
    if length sessid == 32 then hashtbl_seek s.hash_sessid (some sessid) else none

-- The identifiers that are drawn in turn; the loop goes on where they are at their end.
unfoldable pub gen_sessid_new : List CString → Pipes → Option CString
unfolding get_pipe seek_user_id
gen_sessid_new [] s = none
gen_sessid_new (id ∷ ids) s = elim (is_some (seek_user_id id s) || is_some (get_pipe id s)) [
  | true ↦ gen_sessid_new ids s
  | false ↦ some id
]

-- the pipe at a new address, with an identifier of gen_sessid_new
unfoldable pub init_pipe : ℕ → ℕ → PipeType → CString → Pipes → Pipes
init_pipe address pipe type id s = record s {
  heap = update s.heap address (some (record { pipe = pipe; type = type; link = []; pubid = id }));
  hash_pubid = hashtbl_append s.hash_pubid (some id) address;
}

-- `none` as the result is an access to a pipe that is not allocated
unfoldable pub link_pipe : Option ℕ → Option ℕ → Option ℕ → Pipes → Option Pipes
link_pipe none to on_unlink s = some s
link_pipe (some origin) none on_unlink s = some s
link_pipe (some origin) (some to) on_unlink s = elim (s.heap origin) [
  | none ↦ none
  | some p ↦ some (record s {
    heap =
        update s.heap origin
          (some (record p { link = record { plink = to; on_unlink = on_unlink } ∷ p.link }));
  })
]

-- What the callbacks do is given: they may change any pipe. `none` is an access to memory that is
-- freed.
module _ (on_unlink : Unlinked → Pipes → Option Pipes) where
  abbrev pub call_link : ℕ → PipeLink → Pipes → Option Pipes
  call_link origin l s = elim l.on_unlink [
    | none ↦ some s
    | some f ↦ on_unlink (record { callback = f; origin = origin; plink = l.plink }) s
  ]

  -- the loop over the links as they are when it begins
  unfoldable pub call_all : ℕ → List PipeLink → Pipes → Option Pipes
  call_all origin [] s = some s
  call_all origin (l ∷ links) s = call_link origin l s >>= λ s'. call_all origin links s'

  abbrev pub unlinked : ℕ → Pipes → Option Pipes
  unlinked origin s = elim (s.heap origin) [
    | none ↦ none
    | some p ↦ some (record s { heap = update s.heap origin (some (record p { link = [] })) })
  ]

  unfoldable pub unlink_all_pipe : Option ℕ → Pipes → Option Pipes
  unfolding call_all
  unlink_all_pipe none s = some s
  unlink_all_pipe (some origin) s =
      s.heap origin >>= λ p. call_all origin p.link s >>= λ s'. unlinked origin s'

abbrev pub erased : ℕ → Transpipe → Pipes → Pipes
erased address p s = record s {
  heap = update s.heap address none;
  hash_pubid = hashtbl_erase s.hash_pubid (some p.pubid);
}

-- free(pipe), once the links are gone and the identifier is out of hPubid
unfoldable pub free_pipe : ℕ → Option Pipes → Option Pipes
free_pipe address none = none
free_pipe address (some s) = elim (s.heap address) [
  | none ↦ none
  | some p ↦ some (erased address p s)
]

unfoldable pub destroy_pipe : (Unlinked → Pipes → Option Pipes) → ℕ → Pipes → Option Pipes
unfolding unlink_all_pipe free_pipe
destroy_pipe on_unlink address s = free_pipe address (unlink_all_pipe on_unlink (some address) s)

-- a channel is for those who are on it; `on` is isonchannel of the user
unfoldable pub is_closed : (ℕ → Bool) → Transpipe → Bool
is_closed on p = elim p.type [ channel_pipe ↦ not (on p.pipe) | _ ↦ false ]

unfoldable pub get_pipe_strict : (ℕ → Bool) → CString → Pipes → Option (Option ℕ)
unfolding get_pipe is_closed
get_pipe_strict on pubid s = elim (get_pipe pubid s) [
  | none ↦ some none
  | some a ↦ elim (s.heap a) [
    | none ↦ none
    | some p ↦ some (if is_closed on p then none else some a)
  ]
]
