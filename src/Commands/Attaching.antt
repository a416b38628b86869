-- ===== src/Commands/Attaching.antt =====
-- The connection that a command comes by: a host that is too long, and a second connection of a host.
use ape_server.Prelude.{
  ℕ, ◌≡◌, ◌<◌, ◌⊎◌, refl, ap, Bool, true, false, Option, none, some, is_some, List, [], ◌∷◌, update,
  Bool-cases, inl, inr, Option-cases, ◌==◌, ==_refl, length, ltb, if◌then◌else◌, arith, ◌||◌,
}
use ape_server.Prelude.Text.{CString, codes}
use ape_server.Raw.Forge.{message, forge_raw-text}
use ape_server.Strings.Numbers.{pos}
use ape_server.Transports.{
  Transport, longpolling, xhrstreaming, jsonp, persistant, sse_longpolling, sse_jsonp, websocket,
  websocket_ietf, transport_open_same_host,
}
use ape_server.Json.{Items, json_set_property_str_n}
use ape_server.Json.Escapes.{decimal-IsText}
use ape_server.Json.Values.{
  Value, text, v_str, v_obj, member, no_members, decimal, children, IsPlainValue, IsText,
  is_text_byte, IsKey, is_key_byte,
}
use ape_server.Users.Connections
use ape_server.Users.Connections.{Connection, max_host_length}
use ape_server.Commands.{Callback, Registry}
use ape_server.Commands.Server.{
  Server, User, Sub, Inline, forge, send_inline, change_user, find_at, replace_at, world_of,
  with_world, the_sub, put_sub, change_sub, getsubuser, addsubuser,
}
use ape_server.Commands.Call.{Call, CmdProcess}
use ape_server.Commands.Attach.{
  Attached, is_alive, tell_close, open_same_host, attach_new, attach_sub, touch, enter,
}
use ape_server.Commands.Process.{process_for}

addsubuser-long :
    (client u : ℕ) (host : CString) (s : Server) (user : User)
    → s.users u ≡ some user
    → max_host_length < length host
    → addsubuser client host u s ≡ some (none, with_world u user s (world_of s user))
unfolding addsubuser Connections.addsubuser
addsubuser-long client u host s user there long =
    let too_long : (is_some (Connections.getsubuser user.subuser host)
          || ltb max_host_length (length host))
        ≡ true =
      ground (arith, long) in
    rw (there, too_long) refl

module _ (restor : Sub → Server → Option Server) (reg : Registry Call) where
  touch_null :
      (u client : ℕ) (attach : Bool) (s : Server)
      → touch restor u (record { sub = none; client = client; attach = attach; server = s }) ≡ none
  unfolding touch
  touch_null u client attach s =
      elim (Option-cases (change_user (λ user. record user { idle = s.time }) u s)) [
        | inl e ↦ rw e refl
        | inr (s', e) ↦ rw e refl
      ]

  enter-long :
      (pc : CmdProcess) (s : Server) (u : ℕ) (user : User)
      → s.users u ≡ some user
      → pc.sub ≡ none
      → Connections.getsubuser user.subuser pc.host ≡ none
      → max_host_length < length pc.host
      → enter restor u pc s ≡ none
  unfolding enter attach_sub attach_new getsubuser
  enter-long pc s u user there new absent long =
      rw (enter, new, there, absent, addsubuser-long pc.client u pc.host s user there long)
        (touch_null u pc.client true (with_world u user s (world_of s user)))

  -- For a request of a known user whose host has more than 256 letters and no connection yet: the
  -- command goes through NULL, whatever it is.
  pub process_for-long_host :
      (ijson : Items) (cmd : CString) (c : Callback Call) (pc : CmdProcess) (iuser : Option Sub)
      (s : Server) (u : ℕ) (user : User)
      → s.users u ≡ some user
      → pc.sub ≡ none
      → Connections.getsubuser user.subuser pc.host ≡ none
      → max_host_length < length pc.host
      → process_for restor reg ijson cmd c (some u) pc iuser s ≡ none
  unfolding process_for
  process_for-long_host ijson cmd c pc iuser s u user there new absent long =
      rw (enter-long pc s u user there new absent long) refl

-- what stands at an address is found there once it is changed
find_at-replace_at :
    (a : ℕ) (c new : Connection) (cs : List Connection)
    → find_at a cs ≡ some c
    → new.address ≡ c.address
    → find_at a (replace_at a new cs) ≡ some new
unfolding find_at replace_at
find_at-replace_at a c new [] e same = cc
find_at-replace_at a c new (b ∷ cs) e same = elim (Bool-cases (b.address == a)) [
  | inl here ↦
      let first : b.address ≡ c.address =
        ap (λ o. elim o [ none ↦ 0 | some x ↦ x.address ]) (rw (find_at, here) at e) in
      let address : (new.address == a) ≡ true = ground (arith, same, first, here) in
      rw (here, address) refl
  | inr other ↦ rw (other, other) (find_at-replace_at a c new cs (rw (find_at, other) at e) same)
]

module _ (sub : Sub) (s : Server) (user : User) (c : Connection)
    (there : s.users sub.user ≡ some user) (found : find_at sub.address user.subuser ≡ some c) where
  abbrev with_sub : Connection → Server
  with_sub new = record s {
    users =
        update s.users sub.user
          (some (record user { subuser = replace_at sub.address new user.subuser }));
  }

  change_sub-with : (f : Connection → Connection) → change_sub f sub s ≡ some (with_sub (f c))
  unfolding change_sub the_sub put_sub change_user
  change_sub-with f = rw (there, found) refl

  the_sub-with :
      (new : Connection) → new.address ≡ c.address → the_sub sub (with_sub new) ≡ some new
  unfolding the_sub
  the_sub-with new same =
      rw (==_refl sub.user) (find_at-replace_at sub.address c new user.subuser found same)

abbrev close_value : Value
close_value = v_obj (member (codes "value") (v_str (codes "null")) no_members)

tell_close-some :
    (c : Connection) (close : ℕ) (pc : CmdProcess) (s : Server)
    → (messages : List Inline) × (tell_close c close pc s ≡ some (record s { inline = messages }))
unfolding tell_close json_set_property_str_n forge send_inline children IsPlainValue IsText
    is_text_byte IsKey is_key_byte
tell_close-some c close pc s = elim (Bool-cases c.headers_sent) [
  | inl sent ↦ (s.inline, rw sent refl)
  | inr new ↦ (
    record {
      client = if close == pc.client then pc.client else c.client;
      transport = pc.transport;
      content = text (message (decimal (pos s.time)) (codes "CLOSE") close_value);
    }
        ∷ s.inline,
    rw
        (
          new,
          forge_raw-text (decimal (pos s.time)) (codes "CLOSE") close_value (decimal-IsText s.time)
              (refl, (refl, (refl, (refl, (refl, tt)))))
              ((refl, (refl, (refl, (refl, (refl, tt))))), (refl, (refl, (refl, (refl, tt)))), tt),
        )
        refl,
  )
]

-- One of two sockets is kept and the other closed.
abbrev pub Parts : ℕ → ℕ → ℕ → ℕ → Type 0
Parts a b kept closed = ((kept ≡ a) × (closed ≡ b)) ⊎ ((kept ≡ b) × (closed ≡ a))

open_same_host-Parts :
    (a b : ℕ) (t : Transport)
    → Parts a b
        (transport_open_same_host a b t).client_listener
        (transport_open_same_host a b t).client_close
unfolding transport_open_same_host
open_same_host-Parts a b longpolling = inr (refl, refl)
open_same_host-Parts a b xhrstreaming = inl (refl, refl)
open_same_host-Parts a b jsonp = inr (refl, refl)
open_same_host-Parts a b persistant = inl (refl, refl)
open_same_host-Parts a b sse_longpolling = inl (refl, refl)
open_same_host-Parts a b sse_jsonp = inr (refl, refl)
open_same_host-Parts a b websocket = inr (refl, refl)
open_same_host-Parts a b websocket_ietf = inr (refl, refl)

-- The connection listens on the socket that is kept; the other is shut down, and leads to no
-- connection any more.
pub record IsSwitched (sub : Sub) (shut : List ℕ) (a : Attached) (kept closed : ℕ) : Type 0 where
  pub client : a.client ≡ kept
  pub listens : (c : Connection) × (the_sub sub a.server ≡ some c) × (c.client ≡ kept)
  pub shutdown : a.server.shut ≡ closed ∷ shut
  pub detached : a.server.attach closed ≡ none

-- When the user of a connection opens another of the same host: one of the two sockets, the old or
-- the new, is kept, and the connection listens on it; the other one is shut down and leads to the
-- connection no more.
pub open_same_host-IsSwitched :
    (sub : Sub) (s : Server) (user : User) (c : Connection) (pc : CmdProcess)
    → s.users sub.user ≡ some user
    → find_at sub.address user.subuser ≡ some c
    → (a : Attached) × (kept : ℕ) × (closed : ℕ) × (open_same_host c sub pc s ≡ some a)
      × Parts c.client pc.client kept closed
      × IsSwitched sub s.shut a kept closed
unfolding open_same_host the_sub
open_same_host-IsSwitched sub s user c pc there found =
    let r = transport_open_same_host c.client pc.client user.transport in
    let (messages, told) = tell_close-some c r.client_close pc s in
    let s₁ : Server = record s { inline = messages } in
    let new : Connection = record c {
      headers_sent = false;
      headers = false;
      burn_after_writing = false;
      client = r.client_listener;
      alive = is_alive r.substate;
    } in
    let s₂ = with_sub sub s₁ user c there found new in
    (
      record {
        sub = some sub;
        client = r.client_listener;
        attach = r.attach;
        server = record s₂ {
          attach = update s₂.attach r.client_close none;
          shut = r.client_close ∷ s₂.shut;
        };
      },
      r.client_listener,
      r.client_close,
      rw (there, told, change_sub-with sub s₁ user c there found _) refl,
      open_same_host-Parts c.client pc.client user.transport,
      record {
        client = refl;
        listens = (new, the_sub-with sub s₁ user c there found new refl, refl);
        shutdown = refl;
        detached = rw (==_refl r.client_close) refl;
      },
    )
