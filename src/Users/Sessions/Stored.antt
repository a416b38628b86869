-- ===== src/Users/Sessions/Stored.antt =====
-- What set_session stores: the session of a user as a map from keys, in bounds.
use ape_server.Prelude.{
  ℕ, suc, ◌+◌, ◌-◌, ◌≤◌, ◌≡◌, refl, ap, Bool, true, false, Option, none, some, List, [], ◌∷◌, arith,
  ltb, if◌then◌else◌, length, All, Bool-cases, inl, inr,
}
use ape_server.Prelude.Text.{CString, str_eq, eq_of_str_eq, str_eq-other}
use ape_server.Users.Sessions.{
  Session, User, max_session_length, find_session, get_session, overwrite, sent_back, set_session,
}

-- the lengths of the values, added up
unfoldable pub total : List Session → ℕ
total [] = 0
total (s ∷ rest) = length s.val + total rest

unfoldable pub sessions_with : CString → List Session → ℕ
sessions_with key [] = 0
sessions_with key (s ∷ rest) =
    if str_eq s.key key then suc (sessions_with key rest) else sessions_with key rest

-- The length is that of the values and in bounds, a key stands once and has 32 characters at most.
pub record IsUser (user : User) : Type 0 where
  pub size : user.size ≡ total user.sessions
  pub bounded : user.size ≤ max_session_length
  pub once : (key : CString) → sessions_with key user.sessions ≤ 1
  pub short : All (λ s. length s.key ≤ 32) user.sessions

sessions_with-overwrite :
    (key val q : CString) (rest : List Session)
    → sessions_with q (overwrite key val rest) ≡ sessions_with q rest
unfolding sessions_with overwrite
sessions_with-overwrite key val q [] = refl
sessions_with-overwrite key val q (s ∷ rest) =
    ground (arith, sessions_with-overwrite key val q rest)

total-overwrite :
    (key val : CString) (s : Session) (rest : List Session)
    → find_session rest key ≡ some s
    → total (overwrite key val rest) + length s.val ≡ total rest + length val
unfolding total overwrite find_session
total-overwrite key val s [] h = cc
total-overwrite key val s (t ∷ rest) h = elim (Bool-cases (str_eq t.key key)) [
  | inl e ↦
      let same : t.val ≡ s.val = ap (λ o. elim o [ some t ↦ t.val | none ↦ s.val ]) (rw e at h) in
      rw e (omega (arith, ap length same))
  | inr e ↦ rw e (omega (arith, total-overwrite key val s rest (rw e at h)))
]

short-overwrite :
    (key val : CString) (rest : List Session)
    → All (λ s. length s.key ≤ 32) rest
    → All (λ s. length s.key ≤ 32) (overwrite key val rest)
unfolding overwrite
short-overwrite key val [] h = h
short-overwrite key val (s ∷ rest) (hs, h) = elim (Bool-cases (str_eq s.key key)) [
  | inl e ↦ rw e (hs, h)
  | inr e ↦ rw e (hs, short-overwrite key val rest h)
]

sessions_with-none :
    (key q : CString) (rest : List Session)
    → find_session rest key ≡ none
    → str_eq key q ≡ true
    → sessions_with q rest ≡ 0
unfolding sessions_with find_session
sessions_with-none key q rest h e = absent q rest (rw (eq_of_str_eq key q e) at h)
  where
    absent :
        (q : CString) (rest : List Session) → find_session rest q ≡ none → sessions_with q rest ≡ 0
    absent q [] h = refl
    absent q (s ∷ rest) h = ground (arith, absent q rest)

overwritten :
    (k key val q : CString) (old : Session) (o : Option Session)
    → k ≡ key
    → (if str_eq k q then some (record { key = k; val = val }) else o) ≡ (
        if str_eq key q
        then some (record { key = key; val = val })
        else if str_eq k q
        then some old
        else o)
overwritten k key val q old o same =
    rw same (elim (Bool-cases (str_eq key q)) [ inl e ↦ rw e | inr e ↦ rw e ])

find-overwrite :
    (key val q : CString) (s : Session) (rest : List Session)
    → find_session rest key ≡ some s
    → find_session (overwrite key val rest) q
      ≡ (if str_eq key q then some (record { key = key; val = val }) else find_session rest q)
unfolding find_session overwrite
find-overwrite key val q s [] h = cc
find-overwrite key val q s (t ∷ rest) h = elim (Bool-cases (str_eq t.key key)) [
  | inl e ↦
      rw (e, find_session)
        (overwritten t.key key val q t (find_session rest q) (eq_of_str_eq t.key key e))
  | inr e ↦
      let ih = find-overwrite key val q s rest (rw e at h) in
      elim (Bool-cases (str_eq t.key q)) [
        | inl e' ↦ rw (e, find_session, e', str_eq-other t.key key q e e') refl
        | inr e' ↦ rw (e, find_session, e') ih
      ]
]

sent_back_kept :
    (update : Bool) (user : User)
    → ((sent_back update user).0.sessions ≡ user.sessions)
      × ((sent_back update user).0.size ≡ user.size)
sent_back_kept false user = (refl, refl)
sent_back_kept true user = (refl, refl)

sent_back-IsUser : (update : Bool) (user : User) → IsUser user → IsUser (sent_back update user).0
sent_back-IsUser false user v = v
sent_back-IsUser true user v = record {
  size = v.size;
  bounded = v.bounded;
  once = v.once;
  short = v.short;
}

get_session-short :
    (user : User) (key : CString)
    → length key ≤ 32
    → get_session user key ≡ find_session user.sessions key
unfolding get_session
get_session-short user key h = let fits : ltb 32 (length key) ≡ false = ground arith in rw fits

-- What is stored before the connections are told.
stored : User → CString → CString → Option Session → User
stored user key val (some s) = record user {
  sessions = overwrite key val user.sessions;
  size = user.size + length val - length s.val;
}
stored user key val none = record user {
  sessions = record { key = key; val = val } ∷ user.sessions;
  size = user.size + length val;
}

module _ (user : User) (key val : CString) (v : IsUser user) (h : length key ≤ 32)
    (room : user.size + length val ≤ max_session_length) where
  stored-IsUser :
      (o : Option Session) → find_session user.sessions key ≡ o → IsUser (stored user key val o)
  unfolding stored total sessions_with
  stored-IsUser none e = record {
    size = omega (arith, v.size);
    bounded = room;
    once = λ q. elim (Bool-cases (str_eq key q)) [
      | inl same ↦ rw (same, sessions_with-none key q user.sessions e same) (omega arith)
      | inr other ↦ rw other (v.once q)
    ];
    short = (h, v.short);
  }
  stored-IsUser (some s) e = record {
    size = omega (arith, v.size, total-overwrite key val s user.sessions e);
    bounded = omega (arith, room);
    once = λ q. rw (sessions_with-overwrite key val q user.sessions) (v.once q);
    short = short-overwrite key val user.sessions v.short;
  }

  stored-found :
      (q : CString) (o : Option Session)
      → find_session user.sessions key ≡ o
      → find_session (stored user key val o).sessions q ≡ (
          if str_eq key q
          then some (record { key = key; val = val })
          else find_session user.sessions q)
  unfolding stored find_session
  stored-found q none e = refl
  stored-found q (some s) e = find-overwrite key val q s user.sessions e

  set_session-stored :
      (update : Bool) (o : Option Session)
      → find_session user.sessions key ≡ o
      → set_session user key val update ≡ some (sent_back update (stored user key val o))
  unfolding set_session stored
  set_session-stored update o e =
      let fits : ltb 32 (length key) ≡ false = ground arith in
      let bounded : ltb max_session_length (user.size + length val) ≡ false = ground arith in
      rw (fits, bounded, e) (at_option o)
    where
      at_option :
          (o : Option Session)
          → elim o [
            | some s ↦ some (
                sent_back update (record user {
                  sessions = overwrite key val user.sessions;
                  size = user.size + length val - length s.val;
                }))
            | none ↦ some (
                sent_back update (record user {
                  sessions = record { key = key; val = val } ∷ user.sessions;
                  size = user.size + length val;
                }))
          ]
            ≡ some (sent_back update (stored user key val o))
      at_option none = refl
      at_option (some s) = refl

  -- For a user whose length is that of the values and in bounds, and whose keys are short and
  -- stand once, a key of at most 32 characters, and a value that fits what is left of the room,
  -- are stored: all this holds again, and of the keys of at most 32 characters this one finds the
  -- value and every other what it found before.
  pub set_session-get :
      (update : Bool) (q : CString)
      → length q ≤ 32
      → (user' : User) × (told : List CString) × (set_session user key val update
          ≡ some (user', told))
        × IsUser user'
        × (get_session user' q
            ≡ (if str_eq key q then some (record { key = key; val = val }) else get_session user q))
  set_session-get update q hq =
      let o = find_session user.sessions key in
      let back = sent_back update (stored user key val o) in
      (
        back.0,
        back.1,
        set_session-stored update o refl,
        sent_back-IsUser update (stored user key val o) (stored-IsUser o refl),
        rw
            (
              get_session-short (back.0) q hq,
              get_session-short user q hq,
              (sent_back_kept update (stored user key val o)).0,
            )
            (stored-found q o refl),
      )
