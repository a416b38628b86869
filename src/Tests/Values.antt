-- ===== src/Tests/Values.antt =====
-- src/json.c: {"cmd":"SEND","chl":3,"params":{"msg":"a\"b"}} as values, events and items.
use ape_server.Prelude.{◌≡◌, ◌≤◌, ◌<◌, refl, arith, true, false, none, some, [], ◌∷◌, ◌++◌, length}
use ape_server.Prelude.Text.{codes}
use ape_server.Strings.Numbers.{pos, numeral}
use ape_server.Strings.Split.{explode, length-explode}
use ape_server.Json.{item, end}
use ape_server.Json.Print.{json_to_string, escape_json_string, jsize}
use ape_server.Json.Values.{
  Value, Members, v_str, v_num, v_obj, v_true, member, no_members, text, decimal, node, children,
  member_items, IsText, is_text_byte, escaped, json_byte,
}
use ape_server.Json.Reader.{init_json_parser}
use ape_server.Json.Reading.{IsCompound, events, init_json_parser-node}
use ape_server.Json.Buffer.{IsPrintable, json_to_string-IsWithin}
use ape_server.Json.Escapes.{read_string, read_string-escape}

abbrev params : Value
params = v_obj (member (codes "msg") (v_str (codes "a\"b")) no_members)

abbrev command : Members
command =
    member (codes "cmd") (v_str (codes "SEND"))
      (member (codes "chl") (v_num (pos 3)) (member (codes "params") params no_members))

-- a value that does not print as it stands
abbrev flags : Value
flags = v_obj (member (codes "on") v_true (member (codes "none") (v_obj no_members) no_members))

printed :
    text (v_obj command) ≡ codes "{\"cmd\":\"SEND\",\"chl\":3,\"params\":{\"msg\":\"a\\\"b\"}}"
unfolding text escaped json_byte decimal numeral
printed = refl

init_json_parser-node_example :
    init_json_parser (events flags [])
    ≡ some (item (node true flags).self (node true flags).child end)
unfolding IsCompound
init_json_parser-node_example = init_json_parser-node flags tt

command-IsPrintable : IsPrintable (member_items false command)
unfolding IsPrintable children
command-IsPrintable = (omega arith, tt, (omega arith, tt, (refl, (omega arith, tt, tt), tt)))

json_to_string-IsWithin_example :
    length (json_to_string none (member_items false command)) < jsize (member_items false command)
json_to_string-IsWithin_example =
    json_to_string-IsWithin (member_items false command) command-IsPrintable

read_string-escape_example :
    read_string (escape_json_string (codes "a\"b\\") ++ 34 ∷ codes ",1")
    ≡ some (codes "a\"b\\", codes ",1")
unfolding IsText is_text_byte
read_string-escape_example =
    read_string-escape (codes "a\"b\\") (codes ",1") (refl, (refl, (refl, (refl, tt))))

length-explode_example : length (explode b'.' (codes "a..b.c.d") 3) ≤ 3
length-explode_example = length-explode b'.' 3 (codes "a..b.c.d") (omega arith)
