-- ===== src/Tests/Rooms.antt =====
-- A user on a channel that destroys itself, and one who is not on it.
use ape_server.Prelude.{
  ℕ, is_some, ◌≡◌, refl, Bool, true, false, not, ◌&&◌, ◌||◌, none, some, List, [], ◌∷◌, arith,
  if◌then◌else◌, ◌==◌, count,
}
use ape_server.Prelude.Text.{codes, str_eq, tolower}
use ape_server.Hash.{hashtbl_init}
use ape_server.Channels.{Banned, Channel, User, World, join, left, rmchan, left_all}
use ape_server.Channels.Links.{IsWorld}
use ape_server.Channels.Leave.{IsJoined, join-IsJoined}
use ape_server.Channels.Quit.{IsOff}
use ape_server.Channels.Remove.{leaves_nobody, left-IsOff, left_all-IsOff}
use ape_server.Channels.Freeing.{IsRemoved, rmchan-IsRemoved}
use ape_server.Hash.Items.{hashtbl_init-IsValid}
use ape_server.Channels.Levels.{setlevel, within, IsRanked, setlevel-IsRanked}
use ape_server.Channels.Names.{check_name}
use ape_server.Channels.Bans.{getban, rmban, getban-rmban}

abbrev alice : User
alice = record { ip = codes "10.0.0.1"; chan_foot = 7 ∷ []; autoop = false }

abbrev bob : User
bob = record { ip = codes "10.0.0.2"; chan_foot = []; autoop = false }

abbrev room : Channel
room = record {
  name = codes "room";
  head = record { userinfo = 1; level = 3 } ∷ [];
  banned = [];
  noninteractive = false;
  autodestroy = true;
  pipe = 9;
}

abbrev world : World
world = record {
  users = λ u. if u == 1 then some alice else if u == 2 then some bob else none;
  chans = λ c. if c == 7 then some room else none;
  lusers = hashtbl_init;
  posted = [];
  destroyed = [];
}

world-IsWorld : IsWorld world
unfolding count
world-IsWorld = record { agree = λ u c. ground arith; once = λ u c. ground arith }

join-IsJoined_example : (w' : World) × (join 2 7 world ≡ some w') × IsJoined 2 7 world w'
join-IsJoined_example = join-IsJoined 2 7 world bob room refl refl world-IsWorld

left-IsOff_example :
    (w' : World) × (left 1 7 world ≡ some w')
    × IsOff (λ q d. q == 1 && d == 7) world w'
    × ((d : ℕ)
        → is_some (w'.chans d)
          ≡ (if 7 == d && leaves_nobody 1 (some room) then false else is_some (world.chans d)))
left-IsOff_example = left-IsOff 1 7 world alice refl world-IsWorld

rmchan-IsRemoved_example : (w' : World) × (rmchan 7 world ≡ some w') × IsRemoved 7 room world w'
rmchan-IsRemoved_example = rmchan-IsRemoved 7 world room refl world-IsWorld hashtbl_init-IsValid

left_all-IsOff_example :
    (w' : World) × (left_all 1 world ≡ some w') × IsOff (λ q d. q == 1) world w'
left_all-IsOff_example = left_all-IsOff 1 world alice refl world-IsWorld

setlevel-IsRanked_example :
    (given : Bool) × (w' : World) × (setlevel (some 1) 1 7 2 world ≡ some (given, w'))
    × ((not given || within alice 1 1 room 2) ≡ true)
    × IsRanked 1 7 2 given room world w'
setlevel-IsRanked_example = setlevel-IsRanked 1 1 7 2 world alice room refl refl

abbrev bans : List Banned
bans =
    record { ip = codes "a"; expire = 5 }
    ∷ record { ip = codes "b"; expire = 50 }
    ∷ record { ip = codes "a"; expire = 60 }
    ∷ []

getban-rmban_example :
    (getban 10 (codes "b") (rmban 10 (codes "a") bans)).1
    ≡ (if str_eq (codes "a") (codes "b") then none else (getban 10 (codes "b") bans).1)
getban-rmban_example = getban-rmban 10 (codes "a") (codes "b") bans

room_name : (check_name (codes "Room_1")).1 ≡ true
unfolding check_name tolower
room_name = refl
