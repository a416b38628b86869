-- ===== src/Commands.antt =====
-- src/cmd.c: the commands that are registered, and the hooks on them. What a function of a command
-- does is a parameter: it takes a state and what the command is called with, and answers flags.
pub mod Server
pub mod Call
pub mod Attach
pub mod Run
pub mod Process
pub mod Registered
pub mod Refusing
pub mod Attaching
pub mod Connecting
pub mod Named
use ape_server.Prelude.{
  ℕ, ◌≡◌, Bool, true, false, Option, none, some, is_some, List, [], ◌∷◌, ◌++◌, ◌==◌, if◌then◌else◌,
}
use ape_server.Prelude.Text.{CString, casecmp}
use ape_server.Hash.{Htbl, hashtbl_append, hashtbl_erase, hashtbl_seek}
use ape_server.Raw.Send.{◌>>=◌}

-- NEED_NICK, NEED_SESSID, NEED_NOTHING
pub data Need : Type 0 where
  need_nick need_sessid need_nothing : Need

-- the flags that a function answers
abbrev pub return_null : ℕ
return_null = 4

abbrev pub return_nothing : ℕ
return_nothing = 16

abbrev pub return_bad_params : ℕ
return_bad_params = 32

abbrev pub return_continue : ℕ
return_continue = 64

abbrev pub return_bad_cmd : ℕ
return_bad_cmd = 128

abbrev pub return_hang : ℕ
return_hang = 256

module _ {ℓ} (S : Type ℓ) where
  -- The state holds what the function is called with; `none` is an access through NULL.
  abbrev pub Func : Type ℓ
  Func = S → Option (ℕ × S)

  pub record Callback : Type ℓ where
    pub func : Func
    pub need : Need

  -- `func` has its data, cp->data
  pub record CallbackHook : Type ℓ where
    pub cmd : CString
    pub func : Func

  -- hCallback, cmd_hook and bad_cmd_callbacks of acetables
  pub record Registry : Type ℓ where
    pub callbacks : Htbl Callback
    pub cmd_hook : List CallbackHook
    pub bad_cmd_callbacks : List Func

module _ {ℓ} {S : Type ℓ} where
  unfoldable pub register_cmd : CString → Func S → Need → Registry S → Registry S
  register_cmd cmd func need r =
      let erased =
        if is_some (hashtbl_seek r.callbacks (some cmd))
        then hashtbl_erase r.callbacks (some cmd)
        else r.callbacks in
      record r {
        callbacks = hashtbl_append erased (some cmd) (record { func = func; need = need });
      }

  unfoldable pub unregister_cmd : CString → Registry S → Registry S
  unregister_cmd cmd r = record r { callbacks = hashtbl_erase r.callbacks (some cmd) }

  unfoldable pub register_bad_cmd : Func S → Registry S → Registry S
  register_bad_cmd func r = record r { bad_cmd_callbacks = func ∷ r.bad_cmd_callbacks }

  -- the registry, and whether the hook is registered
  unfoldable pub register_hook_cmd : CString → Func S → Registry S → Registry S × Bool
  register_hook_cmd cmd func r = elim (hashtbl_seek r.callbacks (some cmd)) [
    | none ↦ (r, false)
    | some _ ↦ (record r { cmd_hook = r.cmd_hook ++ record { cmd = cmd; func = func } ∷ [] }, true)
  ]

  -- the loop of call_cmd_hook
  unfoldable pub call_hooks : List (CallbackHook S) → CString → Func S
  call_hooks [] cmd s = some (return_continue, s)
  call_hooks (hook ∷ hooks) cmd s = elim (casecmp hook.cmd cmd) [
    | false ↦ call_hooks hooks cmd s
    | true ↦ do
      (ret, s') ← hook.func s
      if ret == return_continue then call_hooks hooks cmd s' else some (ret, s')
  ]

  unfoldable pub call_cmd_hook : CString → Registry S → Func S
  unfolding call_hooks
  call_cmd_hook cmd r = call_hooks r.cmd_hook cmd

  -- the loop of handle_bad_cmd
  unfoldable pub call_bad_cmd : List (Func S) → Func S
  call_bad_cmd [] s = some (return_bad_cmd, s)
  call_bad_cmd (func ∷ funcs) s = do
    (ret, s') ← func s
    if ret == return_bad_cmd then call_bad_cmd funcs s' else some (ret, s')

  unfoldable pub handle_bad_cmd : Registry S → Func S
  unfolding call_bad_cmd
  handle_bad_cmd r = call_bad_cmd r.bad_cmd_callbacks

  -- the command that is registered, or handle_bad_cmd, which needs nothing
  unfoldable pub callback_of : CString → Registry S → Callback S
  callback_of cmd r = elim (hashtbl_seek r.callbacks (some cmd)) [
    | none ↦ record { func = handle_bad_cmd r; need = need_nothing }
    | some c ↦ c
  ]

  -- a hook first, and the function of the command where every hook goes on
  unfoldable pub call : CString → Callback S → Registry S → Func S
  unfolding call_cmd_hook
  call cmd c r s = do
    (flag, s') ← call_cmd_hook cmd r s
    if flag == return_continue then c.func s' else some (flag, s')
