-- ===== src/Tests/Table.antt =====
-- The table at a few keys.
use ape_server.Prelude.{
  ℕ, ◌≡◌, ◌<◌, refl, true, none, some, [], ◌∷◌, count, remove, if◌then◌else◌, arith,
}
use ape_server.Prelude.Text.{CString, codes, casecmp, str_eq, lower, tolower}
use ape_server.Dlist.{empty, push_front, unlink}
use ape_server.Dlist.Laws.{Holds, empty-Holds, push_front-Holds, unlink-Holds}
use ape_server.Hash.{Htbl, hashtbl_init, hashtbl_append, hashtbl_erase, hashtbl_seek, hashtbl_free}
use ape_server.Hash.Djb.{hach_string, hach_string-casecmp}
use ape_server.Hash.Keyed.{
  IsKeyed, hashtbl_init-IsKeyed, hashtbl_append-IsKeyed, hashtbl_erase-IsKeyed,
}
use ape_server.Hash.Items.{
  IsValid, hashtbl_init-IsValid, hashtbl_append-IsValid, seek-erase_valid, hashtbl_free_once,
}

abbrev lobby : CString
lobby = codes "lobby"

abbrev one_key : Htbl ℕ
one_key = hashtbl_append (hashtbl_init {V = ℕ}) (some lobby) 7

one_key-IsValid : IsValid one_key
one_key-IsValid = hashtbl_append-IsValid hashtbl_init (some lobby) 7 hashtbl_init-IsValid

one_key-IsKeyed : IsKeyed one_key
one_key-IsKeyed = hashtbl_append-IsKeyed hashtbl_init (some lobby) 7 hashtbl_init-IsKeyed

hashtbl_append-IsKeyed_example : IsKeyed (hashtbl_append one_key (some (codes "LOBBY")) 8)
hashtbl_append-IsKeyed_example =
    hashtbl_append-IsKeyed one_key (some (codes "LOBBY")) 8 one_key-IsKeyed

hashtbl_erase-IsKeyed_example : IsKeyed (hashtbl_erase one_key (some (codes "Lobby")))
hashtbl_erase-IsKeyed_example = hashtbl_erase-IsKeyed one_key (some (codes "Lobby")) one_key-IsKeyed

seek-erase_valid_example :
    hashtbl_seek (hashtbl_erase one_key (some (codes "Lobby"))) (some lobby)
    ≡ (if casecmp (codes "Lobby") lobby then none else hashtbl_seek one_key (some lobby))
seek-erase_valid_example = seek-erase_valid one_key (codes "Lobby") lobby one_key-IsValid

hashtbl_free_once_example :
    (count 0 (hashtbl_free one_key) ≡ count 0 one_key-IsValid.0)
    × (count 0 (hashtbl_free one_key) < 2)
hashtbl_free_once_example = hashtbl_free_once one_key one_key-IsValid.0 0 one_key-IsValid.1

same_letters : casecmp (codes "LoBBy") lobby ≡ true
unfolding casecmp str_eq lower tolower
same_letters = refl

hach_string-casecmp_example : hach_string (codes "LoBBy") ≡ hach_string lobby
hach_string-casecmp_example = hach_string-casecmp (codes "LoBBy") lobby same_letters

push_front-Holds_example : Holds (push_front 4 empty) (4 ∷ [])
unfolding count
push_front-Holds_example = push_front-Holds 4 empty [] empty-Holds refl

unlink-Holds_example : Holds (unlink 4 (push_front 4 empty)) (remove 4 (4 ∷ []))
unfolding count
unlink-Holds_example =
    unlink-Holds 4 (push_front 4 empty) (4 ∷ []) push_front-Holds_example (omega arith)
