-- ===== src/Json/Joined.antt =====
-- Siblings that are added behind others.
use ape_server.Prelude.{◌≡◌, refl, ap}
use ape_server.Json.{Items, end, item, Node, add_last}

unfoldable pub join : Items → Items → Items
join end t = t
join (item i c next) t = item i c (join next t)

pub join-end : (t : Items) → join t end ≡ t
unfolding join
join-end end = refl
join-end (item i c next) = ap (item i c) (join-end next)

pub join-add_last :
    (s : Items) (n : Node) (t : Items) → join (add_last s n) t ≡ join s (item n.self n.child t)
unfolding join add_last
join-add_last end n t = refl
join-add_last (item i c next) n t = ap (item i c) (join-add_last next n t)

pub add_last-join : (s : Items) (n : Node) → add_last s n ≡ join s (item n.self n.child end)
unfolding join add_last
add_last-join end n = refl
add_last-join (item i c next) n = ap (item i c) (add_last-join next n)

pub join_assoc : (s t u : Items) → join (join s t) u ≡ join s (join t u)
unfolding join
join_assoc end t u = refl
join_assoc (item i c next) t u = ap (item i c) (join_assoc next t u)
