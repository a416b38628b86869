-- ===== src/Commands/Registered.antt =====
-- Which function a command calls once commands and hooks are registered.
use ape_server.Prelude.{
  ℕ, ◌≡◌, refl, ap, sym, ◌∙◌, Bool, true, false, Option, none, some, is_some, List, [], ◌∷◌, ◌++◌,
  ◌==◌, ◌&&◌, if◌then◌else◌, Bool-cases, ==_iff, inl, inr,
}
use ape_server.Prelude.Text.{CString, casecmp}
use ape_server.Hash.{Htbl, hashtbl_append, hashtbl_erase, hashtbl_seek}
use ape_server.Hash.Seek.{seek-append}
use ape_server.Hash.Items.{IsValid, seek-erase_valid, hashtbl_append-IsValid, hashtbl_erase-IsValid}
use ape_server.Raw.Send.{◌>>=◌}
use ape_server.Commands.{
  Func, Callback, CallbackHook, Registry, Need, return_continue, register_cmd, register_hook_cmd,
  call_hooks, call_cmd_hook, callback_of,
}

module _ {ℓ} {S : Type ℓ} where
  abbrev replaced : CString → Callback S → Bool → Htbl (Callback S) → Htbl (Callback S)
  replaced cmd c there t =
      hashtbl_append (if there then hashtbl_erase t (some cmd) else t) (some cmd) c

  replaced-seek :
      (cmd q : CString) (c : Callback S) (there : Bool) (t : Htbl (Callback S))
      → IsValid t
      → hashtbl_seek (replaced cmd c there t) (some q)
        ≡ (if casecmp cmd q then some c else hashtbl_seek t (some q))
  replaced-seek cmd q c false t valid = seek-append t cmd q c
  replaced-seek cmd q c true t valid = elim (Bool-cases (casecmp cmd q)) [
    | inl e ↦ seek-append (hashtbl_erase t (some cmd)) cmd q c ∙ rw e refl
    | inr e ↦
        seek-append (hashtbl_erase t (some cmd)) cmd q c
        ∙ rw e (seek-erase_valid t cmd q valid ∙ rw e refl)
  ]

  replaced-IsValid :
      (cmd : CString) (c : Callback S) (there : Bool) (t : Htbl (Callback S))
      → IsValid t
      → IsValid (replaced cmd c there t)
  replaced-IsValid cmd c false t valid = hashtbl_append-IsValid t (some cmd) c valid
  replaced-IsValid cmd c true t valid =
      hashtbl_append-IsValid (hashtbl_erase t (some cmd)) (some cmd) c
        (hashtbl_erase-IsValid t (some cmd) valid)

  -- In a valid table of commands: once a function is registered under a name, it is the one that is
  -- found under every name that is equal up to case, be the name new or registered before; every
  -- other name has the function it had; and the table is valid still.
  pub register_cmd-callback :
      (cmd q : CString) (func : Func S) (need : Need) (r : Registry S)
      → IsValid r.callbacks
      → (hashtbl_seek (register_cmd cmd func need r).callbacks (some q) ≡ (
          if casecmp cmd q
          then some (record { func = func; need = need })
          else hashtbl_seek r.callbacks (some q)))
        × IsValid (register_cmd cmd func need r).callbacks
  unfolding register_cmd
  register_cmd-callback cmd q func need r valid = (
    replaced-seek cmd q (record { func = func; need = need })
        (is_some (hashtbl_seek r.callbacks (some cmd))) r.callbacks valid,
    replaced-IsValid cmd (record { func = func; need = need })
        (is_some (hashtbl_seek r.callbacks (some cmd))) r.callbacks valid,
  )

  -- what a hook does after others have answered
  abbrev pub then_hook : Bool → Func S → ℕ × S → Option (ℕ × S)
  then_hook applies func (ret, s) =
      if ret == return_continue && applies then func s else some (ret, s)

  abbrev go_on_with : Func S → ℕ × S → Option (ℕ × S)
  go_on_with k (ret, s) = if ret == return_continue then k s else some (ret, s)

  last_answer : (o : Option (ℕ × S)) → (o >>= go_on_with λ s. some (return_continue, s)) ≡ o
  last_answer none = refl
  last_answer (some (ret, s)) = elim (Bool-cases (ret == return_continue)) [
    | inl e ↦ rw e (ap (λ n. some (n, s)) (sym ((==_iff ret return_continue).0 e)))
    | inr e ↦ rw e refl
  ]

  later_answer :
      (o : Option (ℕ × S)) (k k' : Func S) (applies : Bool) (func : Func S)
      → ((s : S) → k s ≡ (k' s >>= then_hook applies func))
      → (o >>= go_on_with k) ≡ ((o >>= go_on_with k') >>= then_hook applies func)
  later_answer none k k' applies func h = refl
  later_answer (some (ret, s)) k k' applies func h = elim (Bool-cases (ret == return_continue)) [
    | inl e ↦ rw e (h s)
    | inr e ↦ rw (e, e) refl
  ]

  call_hooks-append :
      (hooks : List (CallbackHook S)) (name cmd : CString) (func : Func S) (s : S)
      → call_hooks (hooks ++ record { cmd = name; func = func } ∷ []) cmd s
        ≡ (call_hooks hooks cmd s >>= then_hook (casecmp name cmd) func)
  unfolding call_hooks
  call_hooks-append [] name cmd func s = elim (Bool-cases (casecmp name cmd)) [
    | inl e ↦ rw (call_hooks, e) (last_answer (func s))
    | inr e ↦ rw (call_hooks, e) refl
  ]
  call_hooks-append (hook ∷ hooks) name cmd func s = elim (Bool-cases (casecmp hook.cmd cmd)) [
    | inl e ↦
        rw (call_hooks, e)
          (later_answer (hook.func s) _ _ (casecmp name cmd) func
            (call_hooks-append hooks name cmd func))
    | inr e ↦ rw (call_hooks, e) (call_hooks-append hooks name cmd func s)
  ]

  -- For a name under which a command is registered: the hook is registered, and a command then calls
  -- the hooks that were there before, and the new one where its name is that of the command up to
  -- case and all those before it answer RETURN_CONTINUE.
  pub register_hook_cmd-call :
      (name cmd : CString) (func : Func S) (c : Callback S) (r : Registry S) (s : S)
      → hashtbl_seek r.callbacks (some name) ≡ some c
      → ((register_hook_cmd name func r).1 ≡ true)
        × (call_cmd_hook cmd (register_hook_cmd name func r).0 s
            ≡ (call_cmd_hook cmd r s >>= then_hook (casecmp name cmd) func))
  unfolding register_hook_cmd call_cmd_hook
  register_hook_cmd-call name cmd func c r s e = (
    rw (register_hook_cmd, e) refl,
    rw (register_hook_cmd, e) (call_hooks-append r.cmd_hook name cmd func s),
  )

  pub callback_of-found :
      (cmd : CString) (r : Registry S) (c : Callback S)
      → hashtbl_seek r.callbacks (some cmd) ≡ some c
      → callback_of cmd r ≡ c
  unfolding callback_of
  callback_of-found cmd r c e = rw (callback_of, e) refl
