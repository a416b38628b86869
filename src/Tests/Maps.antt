-- ===== src/Tests/Maps.antt =====
-- The session of a user and the properties of an object.
use ape_server.Prelude.{◌≡◌, refl, true, none, some, List, [], ◌∷◌, arith, if◌then◌else◌}
use ape_server.Prelude.Text.{CString, codes, str_eq}
use ape_server.Users.Sessions.{User, get_session, set_session}
use ape_server.Users.Sessions.Stored.{IsUser, total, sessions_with, set_session-get}
use ape_server.Users.Ties.{Ties}
use ape_server.Extend.{
  Value, extend_str, extend_pointer, extend_ispublic, Property, get_property, del_property,
  add_property, shown,
}
use ape_server.Extend.Laws.{IsProperties, bearers, get-del, get-add}

abbrev user : User
user = record {
  sessions = record { key = codes "nick"; val = codes "ann" } ∷ [];
  size = 3;
  subuser = record { channel = codes "host"; need_update = true } ∷ [];
}

user-IsUser : IsUser user
unfolding total sessions_with
user-IsUser = record {
  size = refl;
  bounded = omega arith;
  once = λ key. ground arith;
  short = (omega arith, tt);
}

set_session-get_example :
    (user' : User) × (told : List CString) × (set_session user (codes "nick") (codes "anna") true
      ≡ some (user', told))
    × IsUser user'
    × (get_session user' (codes "nick") ≡ (
        if str_eq (codes "nick") (codes "nick")
        then some (record { key = codes "nick"; val = codes "anna" })
        else get_session user (codes "nick")))
set_session-get_example =
    set_session-get user (codes "nick") (codes "anna") user-IsUser (omega arith) (omega arith) true
      (codes "nick") (omega arith)

abbrev entry : List Property
entry =
    record { key = codes "color"; val = extend_str (codes "red"); visibility = extend_ispublic }
    ∷ []

entry-IsProperties : IsProperties entry
unfolding bearers
entry-IsProperties = record {
  once = λ key. ground arith;
  short = (omega arith, tt);
  guarded = (tt, tt);
}

get-del_example :
    get_property (del_property entry (codes "color")).0 (codes "color")
    ≡ (if str_eq (codes "color") (codes "color") then none else get_property entry (codes "color"))
get-del_example = get-del entry (codes "color") (codes "color") entry-IsProperties

get-add_example :
    (entry' : List Property) × (freed : List Value) × (add_property entry
        (codes "color")
        (extend_pointer 9)
        extend_ispublic
      ≡ some (entry', freed))
    × (get_property entry' (codes "color") ≡ (
        if str_eq (codes "color") (codes "color")
        then some (record {
          key = codes "color";
          val = extend_pointer 9;
          visibility = shown (extend_pointer 9) extend_ispublic;
        })
        else get_property entry (codes "color")))
get-add_example =
    get-add entry (codes "color") (extend_pointer 9) extend_ispublic (codes "color") (omega arith)

abbrev untied : Ties
untied = record {
  users = λ u. record { ulink = []; nlink = 0 };
  links = λ l. record { a = 0; b = 0 };
  fresh = 0;
}
