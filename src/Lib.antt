-- ===== src/Lib.antt =====
-- APE Server, a Comet server in C: a formal model of its core, and what was proved of it.
--
-- The server keeps users in hash tables and in a doubly linked list. A user has connections
-- ("subusers"), each with a socket and two pools of messages ("raws"), and is on channels. Commands
-- post raws to users and to channels; a loop sends what waits in the pools, and timers run
-- callbacks. A request that was read is a handshake, or a JSON text with commands; each command is
-- looked up in a table, and its function, which a plugin may give, runs for the user of the session.
-- The files:
--
--   Prelude            helpers: tests, lists, counts, and C strings (Prelude/Text)
--   Dlist              doubly linked lists by addresses, as src/hash.c and src/users.c thread them
--   Hash               src/hash.c: hach_string (Hash/Djb), hashtbl_init, hashtbl_append,
--                      hashtbl_erase, hashtbl_seek, hashtbl_free; chains (Hash/Chain), the table as
--                      a map (Hash/Seek), its invariants (Hash/Items, Hash/Keyed)
--   Ticks              src/ticks.c: add_timeout, add_periodical, process_tick,
--                      get_timer_identifier, del_timer_identifier, get_first_timer_ms; the view
--                      with absolute times (Ticks/Due, Process, Loop, Delete), the identifiers
--   Sock               src/sock.c: sendbin, sendqueue, safe_shutdown, against a kernel that takes
--                      any part of a write; the bytes sent and queued (Sock/Stream, Sock/Say)
--   Transports         src/transports.c: paddings and decisions
--   Http               src/http.c: the headers of a response; requests: parse_header_line and
--                      get_header_line (Header), process_http (Request), what it stores and that it
--                      returns (Fitting, Enough), a request in several reads (Stable, Chunks, Kept,
--                      Reads, Pieces)
--   Websocket          src/http.c: process_websocket_frame, the frames of clients; the reader
--                      without its buffer (View, Shows), a stream in several reads (Chunks), what a
--                      client sends (Mask, Client, Lengths, Payloads), where the reader writes
--                      (Bounds), frames without a payload (Empty);
--                      process_websocket for the older framing (Older), by a reader that looks at
--                      each byte once (Watched, Reads), and the texts of a client (Texts)
--   Strings            src/utils.c: seof, hex2int, urldecode; itos and the numbers that are read and
--                      written (Numbers), explode (Split)
--   Json               src/json.c: the items of a value, with json_set_property_*, json_item_copy and
--                      json_lookup; printing (Print), values without links (Values), the callback
--                      of the parser (Reader); what is printed, read and built (Texts, Buffer,
--                      Escapes, Copies, Joined, Reading, Building)
--   Pipes              src/pipe.c: gen_sessid_new, init_pipe, destroy_pipe, link_pipe,
--                      unlink_all_pipe, get_pipe, get_pipe_strict, over Hash; which pipes are found
--                      (Known)
--   Raw                src/raw.c: reference counts (Raw/Heap), pools (Raw/Pool), raws_size and
--                      send_raws (Raw/Send) and what is sent (Raw/Listing, High, Whole, Frame,
--                      Answer); forge_raw (Raw/Forge) and send_raw_inline (Raw/Inline)
--   Extend             src/extend.c: properties
--   Users              src/users.c: sessions (Sessions), are_linked and make_link (Ties); the
--                      connections of a user (Connections): getsubuser, addsubuser, delsubuser,
--                      clear_subusers, do_died, with post_raw_sub, post_raw, post_raw_restricted and
--                      destroy_raw_pool of src/raw.c; references and cells (Counted, Posting,
--                      Inheriting, Clearing)
--   Channels           src/channel.c: isonchannel, join, left, left_all, rmchan (Links, Leave, Quit,
--                      Freeing, Remove), getuchan and setlevel (Levels), getban, rmban, rmallban
--                      (Bans), isvalidchan (Names), mkchan and getchan (Made)
--   Commands           src/cmd.c: register_cmd, unregister_cmd, register_bad_cmd,
--                      register_hook_cmd, call_cmd_hook; process_cmd in its parts: the state of the
--                      server, with init_user and adduser of src/users.c (Server), the call of a
--                      function (Call, Run), the connection of a user (Attach), the whole, with
--                      checkcmd (Process); registration (Registered), commands that are refused or
--                      queued (Refusing), a second connection (Attaching), a new user (Connecting),
--                      the values of a command by their names (Named)
--   HandleHttp         src/handle_http.c: gettransport, ws_compute_key_r76, ws_compute_key,
--                      checkrecv, checkrecv_websocket; the numbers of keys (Keys), a request without
--                      a session (Refused), a handshake (Upgrade)
--   Tests              the theorems at concrete inputs
--
-- State is a record, passed on; a pointer is an address or, into a list, an index. A result `none`
-- is an access through NULL or to freed memory, or the want of a random draw. Three loops run on fuel: that of process_tick, where
-- as many rounds as there are timers and one more are enough, the calls that process_http makes of
-- itself, where two more than the bytes in the buffer are enough, and those of process_websocket,
-- where one more than its bytes is enough; all other loops are structural. The calls of rmchan and left go around once at most, since rmchan switches the
-- destruction of the channel off before it calls left; the inner left is given a rmchan that
-- fails, and never calls it. Machine integers wrap in the hash, in hex2int and in the length that
-- a WebSocket frame counts down; elsewhere the numbers are natural, with the tests on negative
-- values written out.
--
-- The text of a real number is what `%f` prints of it. The random draws of identifiers are a list
-- in the state of the server.
--
-- rmchan of a channel logs the pipe that it calls destroy_pipe for; what destroy_pipe does stands in
-- Pipes. atoi is taken without the bound of an int, and the bytes behind the end of a buffer are taken
-- as NUL.
--
-- Parameters: the callbacks of the links between pipes, the functions of the commands (those of the
-- server, as cmd_connect and cmd_join, and those of plugins), subuser_restor, MD5, SHA-1, base64, and
-- the JSON tokenizer as the events of a text.
--
-- Not modelled: reading from sockets and the event loop, the framing of the draft before the current
-- one (process_websocket_frame_06), proxies, the older `struct json`, configuration, plugins (no plugin is hooked on an event), and the libraries under deps and
-- modules/deps.
pub mod Prelude
pub mod Dlist
pub mod Hash
pub mod Ticks
pub mod Sock
pub mod Transports
pub mod Http
pub mod Json
pub mod Raw
pub mod Extend
pub mod Users
pub mod Channels
pub mod Commands
pub mod HandleHttp
pub mod Tests
pub mod Websocket
pub mod Strings
pub mod Pipes
