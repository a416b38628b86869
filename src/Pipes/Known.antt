-- ===== src/Pipes/Known.antt =====
-- Which pipes are known by their identifiers.
use ape_server.Prelude.{
  ℕ, ◌≡◌, refl, subst, sym, ap, ◌∙◌, arith, true, false, ◌||◌, Bool-cases, inl, inr, Option, none,
  some, is_some, List, [], ◌∷◌, ◌==◌, if◌then◌else◌, length, update, All, ==_refl,
}
use ape_server.Prelude.Text.{CString, casecmp, casecmp_refl}
use ape_server.Hash.{hashtbl_erase, hashtbl_seek}
use ape_server.Hash.Seek.{seek-append, hashtbl_seek_congr}
use ape_server.Hash.Items.{IsValid, seek-erase_valid}
use ape_server.Pipes.{
  PipeLink, PipeType, Unlinked, Transpipe, Pipes, get_pipe, seek_user_id, gen_sessid_new, init_pipe,
  call_all, unlink_all_pipe, free_pipe, destroy_pipe, erased,
}

-- An identifier that gen_sessid_new gives is drawn with 32 letters, and no pipe has it.
record IsNew (id : CString) (s : Pipes) : Type 0 where
  long : length id ≡ 32
  no_pipe : get_pipe id s ≡ none

is_none : (o : Option ℕ) → is_some o ≡ false → o ≡ none
is_none none e = refl
is_none (some a) e = cc

gen_sessid_new-IsNew :
    (ids : List CString) (s : Pipes) (id : CString)
    → All (λ i. length i ≡ 32) ids
    → gen_sessid_new ids s ≡ some id
    → IsNew id s
unfolding gen_sessid_new
gen_sessid_new-IsNew [] s id long e = cc
gen_sessid_new-IsNew (i ∷ ids) s id (here, long) e =
    elim (Bool-cases (is_some (seek_user_id i s) || is_some (get_pipe i s))) [
      | inl taken ↦ gen_sessid_new-IsNew ids s id long (rw (gen_sessid_new, taken) at e)
      | inr free ↦
          let same = ap (λ o. elim o [ none ↦ i | some x ↦ x ]) (rw (gen_sessid_new, free) at e) in
          subst (λ x. IsNew x s) same
            (record { long = here; no_pipe = is_none (get_pipe i s) (ground (arith, free)) })
    ]

-- A new pipe is found by the identifier that gen_sessid_new has drawn for it, of 32 letters as all
-- that are drawn, and a pipe that was found before by its identifier is found still.
pub init_pipe-get_pipe :
    (ids : List CString) (id : CString) (s : Pipes) (address pipe : ℕ) (type : PipeType)
    (q : CString) (a : ℕ)
    → All (λ i. length i ≡ 32) ids
    → gen_sessid_new ids s ≡ some id
    → get_pipe q s ≡ some a
    → (get_pipe id (init_pipe address pipe type id s) ≡ some address)
      × (get_pipe q (init_pipe address pipe type id s) ≡ some a)
unfolding get_pipe init_pipe
init_pipe-get_pipe ids id s address pipe type q a long e known =
    let new = gen_sessid_new-IsNew ids s id long e in
    let thirty_two : (length id == 32) ≡ true = rw new.long refl in
    let absent : hashtbl_seek s.hash_pubid (some id) ≡ none = rw thirty_two at new.no_pipe in
    (
      rw (thirty_two, seek-append s.hash_pubid id id address, casecmp_refl id) refl,
      elim (Bool-cases (length q == 32)) [
        | inr other ↦ absurd (apart (rw other at known))
        | inl this ↦ elim (Bool-cases (casecmp id q)) [
          | inl same ↦
              absurd (
                apart (sym absent ∙ hashtbl_seek_congr id q same s.hash_pubid ∙ (rw this at known)))
          | inr differ ↦ rw (this, seek-append s.hash_pubid id q address, differ) (rw this at known)
        ]
      ],
    )
  where
    apart : none ≡ some a → ⊥
    apart e = cc

-- The callbacks of some links are called in their order, each with the pipe and the link, and lead
-- from one state to another.
pub data Called (on_unlink : Unlinked → Pipes → Option Pipes) (origin : ℕ)
    : List PipeLink → Pipes → Pipes → Type 0 where
  all_called : (s : Pipes) → Called on_unlink origin [] s s
  no_callback :
      (l : PipeLink) (links : List PipeLink) (s s' : Pipes)
      → l.on_unlink ≡ none
      → Called on_unlink origin links s s'
      → Called on_unlink origin (l ∷ links) s s'
  called :
      (l : PipeLink) (links : List PipeLink) (f : ℕ) (s s₁ s' : Pipes)
      → l.on_unlink ≡ some f
      → on_unlink (record { callback = f; origin = origin; plink = l.plink }) s ≡ some s₁
      → Called on_unlink origin links s₁ s'
      → Called on_unlink origin (l ∷ links) s s'

call_all-Called :
    (on_unlink : Unlinked → Pipes → Option Pipes) (origin : ℕ) (links : List PipeLink)
    (s s' : Pipes)
    → Called on_unlink origin links s s'
    → call_all on_unlink origin links s ≡ some s'
unfolding call_all
call_all-Called on_unlink origin [] s s' (all_called _) = refl
call_all-Called on_unlink origin (l ∷ links) s s' (no_callback _ _ _ _ none_there c) =
    rw none_there (call_all-Called on_unlink origin links s s' c)
call_all-Called on_unlink origin (l ∷ links) s s' (called _ _ f _ s₁ _ there run c) =
    rw (there, run) (call_all-Called on_unlink origin links s₁ s' c)

-- For any callbacks: if a pipe is allocated, the callbacks of its links, called in turn, lead to a
-- state, and in this the pipe is allocated still and the table of identifiers is valid, then
-- destroy_pipe gives that state without the pipe. It frees no other pipe that the callbacks have left,
-- and takes the identifier out: nothing is found by it up to case, and by another what the callbacks
-- have left.
pub destroy_pipe-get_pipe :
    (on_unlink : Unlinked → Pipes → Option Pipes) (address : ℕ) (p p₁ : Transpipe) (s s₁ : Pipes)
    (q : CString)
    → s.heap address ≡ some p
    → Called on_unlink address p.link s s₁
    → s₁.heap address ≡ some p₁
    → IsValid s₁.hash_pubid
    → (s' : Pipes) × (destroy_pipe on_unlink address s ≡ some s')
      × ((b : ℕ) → s'.heap b ≡ (if address == b then none else s₁.heap b))
      × (get_pipe q s' ≡ (if casecmp p₁.pubid q then none else get_pipe q s₁))
unfolding destroy_pipe unlink_all_pipe free_pipe get_pipe
destroy_pipe-get_pipe on_unlink address p p₁ s s₁ q there run still valid = (
  erased address (record p₁ { link = [] })
      (record s₁ { heap = update s₁.heap address (some (record p₁ { link = [] })) }),
  rw
      (
        destroy_pipe,
        unlink_all_pipe,
        there,
        call_all-Called on_unlink address p.link s s₁ run,
        still,
        free_pipe,
        ==_refl address,
      )
      refl,
  heap_at,
  known,
)
  where
    heap_at :
        (b : ℕ)
        → update (update s₁.heap address (some (record p₁ { link = [] }))) address none b
          ≡ (if address == b then none else s₁.heap b)
    heap_at b = elim (Bool-cases (address == b)) [ inl e ↦ rw e refl | inr e ↦ rw e refl ]

    known :
        (if length q == 32
          then hashtbl_seek (hashtbl_erase s₁.hash_pubid (some p₁.pubid)) (some q)
          else none)
        ≡ (if casecmp p₁.pubid q
            then none
            else if length q == 32
            then hashtbl_seek s₁.hash_pubid (some q)
            else none)
    known =
        rw (seek-erase_valid s₁.hash_pubid p₁.pubid q valid)
          (elim (Bool-cases (casecmp p₁.pubid q)) [
            | inl same ↦ elim (Bool-cases (length q == 32)) [
              | inl e ↦ rw (same, e) refl
              | inr e ↦ rw (same, e) refl
            ]
            | inr other ↦ rw other refl
          ])
