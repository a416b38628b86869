-- ===== src/Commands/Connecting.antt =====
-- CONNECT: the user who is allocated is found by the session that is drawn for him.
use ape_server.Prelude.{
  ℕ, suc, ◌≡◌, ◌≤◌, refl, ap, sym, subst, ◌∙◌, arith, true, false, ◌||◌, Option, none, some,
  is_some, List, [], ◌∷◌, update, Bool-cases, inl, inr, ◌==◌, ==_refl, length, ltb, All,
}
use ape_server.Prelude.Text.{CString, casecmp, casecmp_refl}
use ape_server.Hash.{hashtbl_append, hashtbl_seek}
use ape_server.Hash.Seek.{seek-append, hashtbl_seek_congr}
use ape_server.Pipes.{Pipes, user_pipe, gen_sessid_new, get_pipe, seek_user_id, init_pipe}
use ape_server.Users.Connections
use ape_server.Users.Connections.{Connection, max_host_length, new_connection}
use ape_server.Json.{end}
use ape_server.Transports.{longpolling}
use ape_server.Commands.Server.{
  Server, User, allocate_user, init_user, draw, change_user, addsubuser,
}

-- An identifier that gen_sessid_new gives has 32 letters, as all that are drawn, and no session.
abbrev IsUnused : Pipes → CString → Type 0
IsUnused s id = (length id ≡ 32) × (seek_user_id id s ≡ none)

is_none : (o : Option ℕ) → is_some o ≡ false → o ≡ none
is_none none e = refl
is_none (some a) e = cc

gen_sessid_new-IsUnused :
    (ids : List CString) (s : Pipes) (id : CString)
    → All (λ i. length i ≡ 32) ids
    → gen_sessid_new ids s ≡ some id
    → IsUnused s id
unfolding gen_sessid_new
gen_sessid_new-IsUnused [] s id long e = cc
gen_sessid_new-IsUnused (i ∷ ids) s id (here, long) e =
    elim (Bool-cases (is_some (seek_user_id i s) || is_some (get_pipe i s))) [
      | inl taken ↦ gen_sessid_new-IsUnused ids s id long (rw (gen_sessid_new, taken) at e)
      | inr free ↦
          let same = ap (λ o. elim o [ none ↦ i | some x ↦ x ]) (rw (gen_sessid_new, free) at e) in
          subst (IsUnused s) same (here, is_none (seek_user_id i s) (ground (arith, free)))
    ]

module _ (client : ℕ) (host ip : CString) (s : Server) (ids ids' : List CString)
    (rest : List (List CString)) (sessid pubid : CString) (draws : s.draws ≡ ids ∷ ids' ∷ rest)
    (drawn : gen_sessid_new ids s.pipes ≡ some sessid)
    (drawn' : gen_sessid_new ids' s.pipes ≡ some pubid)
    (short : length host ≤ max_host_length) where
  abbrev pub fresh_user : User
  fresh_user = record {
    sessid = sessid;
    ip = ip;
    transport = longpolling;
    idle = s.time;
    human = true;
    istmp = true;
    cmdqueue = end;
    subuser = new_connection (suc (suc s.fresh)) client host s.time ∷ [];
    nsub = 1;
  }

  abbrev pub connected : Server
  connected =
      let pipes = init_pipe (suc s.fresh) s.fresh user_pipe pubid s.pipes in
      record s {
        users =
            update
              (update
                (update s.users s.fresh
                  (some (record fresh_user { ip = []; istmp = false; subuser = []; nsub = 0 })))
                s.fresh (some (record fresh_user { subuser = []; nsub = 0 })))
              s.fresh (some fresh_user);
        list = s.fresh ∷ s.list;
        fresh = suc (suc (suc s.fresh));
        draws = rest;
        pipes = record pipes {
          hash_sessid = hashtbl_append pipes.hash_sessid (some sessid) s.fresh;
        };
      }

  allocate_user-connected : allocate_user client host ip s ≡ some (s.fresh, connected)
  unfolding allocate_user init_user draw change_user addsubuser Connections.addsubuser
      Connections.getsubuser Connections.inherit_from
  allocate_user-connected =
      let fits : ltb max_host_length (length host) ≡ false = ground (arith, short) in
      rw
        (
          allocate_user,
          init_user,
          draw,
          draws,
          drawn,
          drawn',
          change_user,
          ==_refl s.fresh,
          ==_refl s.fresh,
          addsubuser,
          Connections.addsubuser,
          fits,
        )
        refl

  -- For a host of at most 256 letters, identifiers of 32 letters that are drawn, and a user who is
  -- known by a session: CONNECT allocates a user at a new address, who is not let in yet and has one
  -- connection, that of the client and the host; he is known by the session that is drawn for him,
  -- and the other user by his own still.
  pub allocate_user-seek_user_id :
      (q : CString) (a : ℕ)
      → All (λ i. length i ≡ 32) ids
      → seek_user_id q s.pipes ≡ some a
      → (s' : Server) × (allocate_user client host ip s ≡ some (s.fresh, s'))
        × (s'.users s.fresh ≡ some fresh_user)
        × (seek_user_id sessid s'.pipes ≡ some s.fresh)
        × (seek_user_id q s'.pipes ≡ some a)
  unfolding seek_user_id init_pipe
  allocate_user-seek_user_id q a long known =
      let (thirty_two, unused) = gen_sessid_new-IsUnused ids s.pipes sessid long drawn in
      let letters : (length sessid == 32) ≡ true = rw thirty_two refl in
      let absent : hashtbl_seek s.pipes.hash_sessid (some sessid) ≡ none = rw letters at unused in
      (
        connected,
        allocate_user-connected,
        rw (==_refl s.fresh) refl,
        rw (letters, seek-append s.pipes.hash_sessid sessid sessid s.fresh, casecmp_refl sessid)
            refl,
        elim (Bool-cases (length q == 32)) [
          | inr other ↦ absurd (apart q a (rw other at known))
          | inl this ↦ elim (Bool-cases (casecmp sessid q)) [
            | inl same ↦ absurd (
                apart q a (
                  sym absent
                  ∙ hashtbl_seek_congr sessid q same s.pipes.hash_sessid
                  ∙ (rw this at known)))
            | inr differ ↦
                rw (this, seek-append s.pipes.hash_sessid sessid q s.fresh, differ)
                  (rw this at known)
          ]
        ],
      )
    where
      apart : (q : CString) (a : ℕ) → none ≡ some a → ⊥
      apart q a e = cc
