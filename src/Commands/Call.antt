-- ===== src/Commands/Call.antt =====
-- What the functions of commands are called with and process_cmd of src/cmd.c works on, and its error
-- messages.
use ape_server.Prelude.{ℕ, not, Bool, Option, none, some, ◌==◌, if◌then◌else◌, bit_and}
use ape_server.Prelude.Text.{CString, codes}
use ape_server.Strings.Numbers.{ℤ, pos, magnitude}
use ape_server.Raw.Send.{◌>>=◌}
use ape_server.Transports.{Transport}
use ape_server.Json.{
  Items, end, item, Node, json_new_object, json_set_property_str_n, json_set_property_int_n,
}
use ape_server.Commands.Server.{Server, Sub, getsubuser, post_raw_sub, forge, send_inline}

-- struct _callbackp less `data`, which stands in the functions, and `hlines`
pub record Callbackp : Type 0 where
  pub client : ℕ
  pub param : Items
  pub call_user : Option ℕ
  pub ip : CString
  pub host : CString
  pub cmd : CString
  pub call_subuser : Option Sub
  pub transport : Transport
  pub chl : ℤ

-- what a function works on
pub record Call : Type 0 where
  pub server : Server
  pub cp : Callbackp

-- struct _cmd_process
pub record CmdProcess : Type 0 where
  pub guser : Option ℕ
  pub sub : Option Sub
  pub client : ℕ
  pub host : CString
  pub ip : CString
  pub transport : Transport

-- what process_cmd returns: -1, CONNECT_KEEPALIVE or CONNECT_SHUTDOWN
pub data Answer : Type 0 where
  go_on connect_keepalive connect_shutdown : Answer

-- with the connection at *iuser
pub record Outcome : Type 0 where
  pub answer : Answer
  pub guser : Option ℕ
  pub iuser : Option Sub
  pub server : Server

-- jval.vu.str.value of the item; NULL where there is no item
unfoldable pub json_str : Items → Option CString
json_str end = none
json_str (item i child next) = i.str

abbrev pub flagged : ℕ → ℕ → Bool
flagged flag mask = not (bit_and flag mask == 0)

-- The object with `code` and `value`, after a challenge that is not 0.
unfoldable pub error_object : ℤ → CString → CString → Option Node
error_object chl code value = do
  jlist ←
      if magnitude chl == 0
      then some json_new_object
      else json_set_property_int_n json_new_object (some (codes "chl")) chl
  coded ← json_set_property_str_n jlist (some (codes "code")) code
  json_set_property_str_n coded (some (codes "value")) value

unfoldable pub error_inline : CmdProcess → ℤ → CString → CString → Server → Option Server
unfolding error_object
error_inline pc chl code value s = do
  jlist ← error_object chl code value
  raw ← forge (codes "ERR") jlist s
  some (send_inline pc.client pc.transport raw s)

-- the connection, or that of the host where it is NULL
unfoldable pub sub_or_host : Option ℕ → Option Sub → CString → Server → Option (Option Sub)
sub_or_host guser (some b) host s = some (some b)
sub_or_host guser none host s = guser >>= λ u. getsubuser u host s

-- To the connection, or to that of the host where it is NULL.
unfoldable pub error_sub :
    CmdProcess → Option Sub → ℤ → CString → CString → Server → Option (Option Sub × Server)
unfolding error_object sub_or_host
error_sub pc sub chl code value s = do
  jlist ← error_object chl code value
  raw ← forge (codes "ERR") jlist s
  sub' ← sub_or_host pc.guser sub pc.host s
  b ← sub'
  s' ← post_raw_sub raw b s
  some (sub', s')

-- an error that ends the request
unfoldable pub refuse : CString → CString → CmdProcess → Option Sub → Server → Option Outcome
unfolding error_inline
refuse code value pc iuser s = do
  s' ← error_inline pc (pos 0) code value s
  some (record { answer = connect_shutdown; guser = pc.guser; iuser = iuser; server = s' })
