-- ===== src/Users/Ties.antt =====
-- are_linked and make_link of src/users.c: the links between users who met on a channel.
use ape_server.Prelude.{
  ℕ, suc, ◌+◌, ◌≡◌, refl, false, ◌||◌, Option, none, some, List, [], ◌∷◌, leb, ◌==◌, if◌then◌else◌,
  update, is_some,
}

-- struct _users_link
pub record Tie : Type 0 where
  pub a : ℕ
  pub b : ℕ

-- `links` of struct USERS: the links by address
pub record Tied : Type 0 where
  pub ulink : List ℕ
  pub nlink : ℕ

pub record Ties : Type 0 where
  pub users : ℕ → Tied
  pub links : ℕ → Tie
  pub fresh : ℕ

unfoldable find_tie : (ℕ → Tie) → ℕ → List ℕ → Option ℕ
find_tie links user [] = none
find_tie links user (l ∷ ls) =
    if (links l).b == user || (links l).a == user then some l else find_tie links user ls

-- the smaller list is walked
unfoldable pub are_linked : ℕ → ℕ → Ties → Option ℕ
unfolding find_tie
are_linked a b w =
    if (w.users a).nlink == 0 || (w.users b).nlink == 0
    then none
    else if leb (w.users a).nlink (w.users b).nlink
    then find_tie w.links b (w.users a).ulink
    else find_tie w.links a (w.users b).ulink

unfoldable pub tie : ℕ → ℕ → Tied → Tied
tie l user t = record { ulink = l ∷ t.ulink; nlink = t.nlink + 1 }

-- `if (are_linked(a, b) != NULL)`: the new link is made when there is one already
unfoldable pub make_link : ℕ → ℕ → Ties → Ties
unfolding are_linked tie
make_link a b w =
    if is_some (are_linked a b w)
    then (let users = update w.users a (tie w.fresh a (w.users a)) in
        record {
          users = update users b (tie w.fresh b (users b));
          links = update w.links w.fresh (record { a = a; b = b });
          fresh = suc w.fresh;
        })
    else w

unfoldable pub make_links : List (ℕ × ℕ) → Ties → Ties
unfolding make_link
make_links [] w = w
make_links ((a, b) ∷ pairs) w = make_links pairs (make_link a b w)

make_link-untied : (a b : ℕ) (w : Ties) → (w.users a).nlink ≡ 0 → make_link a b w ≡ w
unfolding make_link
make_link-untied a b w e =
    let none_yet : is_some (are_linked a b w) ≡ false = unfold are_linked in rw e refl in
    rw none_yet

-- From a state where nobody has a link, no sequence of calls of make_link gives anyone a link.
pub make_links-untied :
    (pairs : List (ℕ × ℕ)) (w : Ties)
    → ((user : ℕ) → (w.users user).nlink ≡ 0)
    → make_links pairs w ≡ w
unfolding make_links
make_links-untied [] w e = refl
make_links-untied ((a, b) ∷ pairs) w e =
    rw (make_link-untied a b w (e a)) (make_links-untied pairs w e)
