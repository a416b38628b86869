-- ===== src/Tests/Received.antt =====
-- src/handle_http.c: a command without a session, and a handshake.
use ape_server.Prelude.{◌≡◌, refl, arith, true, false, Option, none, some, List, [], ◌∷◌, count}
use ape_server.Prelude.Text.{CString, codes, casecmp, lower, tolower, str_eq}
use ape_server.Sock.Say.{Out, Said}
use ape_server.Transports.{longpolling}
use ape_server.Http.Header.{HeaderLine, get_header_line}
use ape_server.Http.Request.{Ready}
use ape_server.Json.Values.{v_str, v_obj, v_arr, member, no_members, element, no_elements}
use ape_server.Json.Reader.{Event}
use ape_server.Json.Reading.{events}
use ape_server.Commands.Refusing.{error_text}
use ape_server.Commands.Named.{named}
use ape_server.Strings.Numbers.{read_decimal}
use ape_server.HandleHttp.{Digests, checkrecv, gettransport, ws_compute_key_r76}
use ape_server.HandleHttp.Keys.{digits_of, ws_compute_key_r76-read}
use ape_server.HandleHttp.Refused.{checkrecv-no_session}
use ape_server.HandleHttp.Upgrade.{accept_key, switching, asked_version, checkrecv-Said}
use ape_server.Tests.Server.{server, commands, check_needs, no_restor}
use ape_server.Tests.Streams.{narrow, narrow-IsSocket}

abbrev out : Out
out = record { socket = narrow; finish = true }

-- digests that change nothing
abbrev plain : Digests
plain = record { md5 = λ s. s; sha1_csum = λ s. s; base64_encode = λ s. s }

-- [{"cmd":"check"}], whatever the text is
abbrev parse : CString → Option (List Event)
parse text = some (
    events
      (v_arr
        (element (v_obj (member (codes "cmd") (v_str (codes "check")) no_members)) no_elements))
      [])

abbrev command : Ready
command = record {
  uri = some (codes "/0/");
  query = some (codes "[{\"cmd\":\"check\"}]");
  host = some (codes "2");
  hlines = [];
}

checkrecv-no_session_example :
    checkrecv no_restor commands plain parse [] [] 8 (codes "127.0.0.1") command [] server out
    ≡ some (record {
      server = record server {
        inline =
            record {
              client = 8;
              transport = longpolling;
              content = error_text 100 (codes "004") (codes "BAD_SESSID");
            }
            ∷ [];
        shut = 8 ∷ [];
      };
      out = out;
      closed = false;
      upgraded = none;
      user = none;
    })
unfolding gettransport casecmp str_eq lower tolower count named
checkrecv-no_session_example =
    checkrecv-no_session no_restor commands plain parse [] [] 8 (codes "127.0.0.1") command []
      server out (codes "2") (codes "/0/") (codes "[{\"cmd\":\"check\"}]")
      (member (codes "cmd") (v_str (codes "check")) no_members) no_elements (codes "check") refl
      refl refl refl refl refl refl check_needs

abbrev hlines : List HeaderLine
hlines =
    record { key = codes "Origin"; value = codes "a" }
    ∷ record { key = codes "Sec-WebSocket-Key"; value = codes "b" }
    ∷ record { key = codes "Sec-WebSocket-Version"; value = codes "13" }
    ∷ []

abbrev handshake : Ready
handshake = record {
  uri = some (codes "/6/");
  query = none;
  host = some (codes "2");
  hlines = hlines;
}

checkrecv-Said_example :
    (o' : Out) × (checkrecv no_restor commands plain parse [] [] 8
        (codes "127.0.0.1")
        handshake
        []
        server
        out
      ≡ some (record {
        server = server;
        out = o';
        closed = false;
        upgraded = some (asked_version (codes "13"));
        user = none;
      }))
    × Said out
        (switching
          (accept_key plain (codes "b"))
          (get_header_line hlines (codes "Sec-WebSocket-Protocol")))
        o'
unfolding gettransport get_header_line casecmp str_eq lower tolower
checkrecv-Said_example =
    checkrecv-Said no_restor commands plain parse [] [] 8 (codes "127.0.0.1") handshake [] server
      out (codes "2") (codes "/6/") (codes "a") (codes "b") (codes "13") narrow-IsSocket refl refl
      refl refl refl refl refl (omega arith)

ws_compute_key_r76-read_example : ws_compute_key_r76 (codes "1 2x 3") ≡ 61
unfolding digits_of read_decimal count
ws_compute_key_r76-read_example = ws_compute_key_r76-read (codes "1 2x 3")
