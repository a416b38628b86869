-- ===== src/Raw/Forge.antt =====
-- forge_raw of src/raw.c: the text of a raw is that of an object with the time, the raw's name and
-- its data.
use ape_server.Prelude.{◌≡◌, ap, refl, false, Option, none, some}
use ape_server.Prelude.Text.{CString, codes}
use ape_server.Raw.Heap.{Raw, lo}
use ape_server.Raw.Send.{◌>>=◌}
use ape_server.Json.{
  Node, item, end, json_new_object, json_set_property_str_n, json_set_property_obj_n,
}
use ape_server.Json.Print.{json_to_string}
use ape_server.Json.Texts.{json_to_string-text}
use ape_server.Json.Values.{
  Value, v_str, v_obj, member, no_members, node, text, IsPlainValue, IsText, IsKey, is_key_byte,
  children,
}

-- `time` is what sprintf prints of the clock; `refcount` starts at 0
unfoldable pub forge_raw : CString → CString → Node → Option Raw
forge_raw time raw jlist = do
  timed ← json_set_property_str_n json_new_object (some (codes "time")) time
  named ← json_set_property_str_n timed (some (codes "raw")) raw
  jstruct ← json_set_property_obj_n named (some (codes "data")) jlist
  some (record {
    content = json_to_string none (item jstruct.self jstruct.child end);
    priority = lo;
    refcount = 0;
  })

abbrev pub message : CString → CString → Value → Value
message time raw v = v_obj (
    member (codes "time") (v_str time)
      (member (codes "raw") (v_str raw) (member (codes "data") v no_members)))

-- For a time, a name and data that print in JSON: the raw that is
-- forged is the text of the object with the time, the name and the data, it has the low priority and
-- no reference.
pub forge_raw-text :
    (time raw : CString) (v : Value)
    → IsText time
    → IsText raw
    → IsPlainValue false v
    → forge_raw time raw (node false v)
      ≡ some (record { content = text (message time raw v); priority = lo; refcount = 0 })
unfolding forge_raw json_set_property_str_n json_set_property_obj_n IsPlainValue children IsKey
    is_key_byte
forge_raw-text time raw v timed named plain =
    ap (λ t. some (record { content = t; priority = lo; refcount = 0 }))
      (json_to_string-text false (message time raw v) (
        (refl, (refl, (refl, (refl, tt)))),
        timed,
        ((refl, (refl, (refl, tt))), named, ((refl, (refl, (refl, (refl, tt)))), plain, tt)),
      ))
