-- ===== src/Transports.antt =====
-- src/transports.c: how each transport pads a message, which of two connections of one user is kept,
-- and whether a connection is closed when a message is sent.
use ape_server.Prelude.{Option, none, some, Bool, true, false, [], ◌∷◌, ◌++◌}
use ape_server.Prelude.Text.{CString, codes}

-- transport_t
pub data Transport : Type 0 where
  longpolling xhrstreaming jsonp persistant sse_longpolling sse_jsonp websocket websocket_ietf :
      Transport

-- struct _transport_properties; `none` is a NULL pointer
pub record Padding : Type 0 where
  pub left : Option CString
  pub right : Option CString

-- g_ape->transports
pub record Transports : Type 0 where
  pub jsonp_properties : Padding
  pub xhrstreaming_properties : Padding
  pub sse_properties : Padding
  pub websocket_properties : Padding
  pub websocket_ietf_properties : Padding

-- The pads are copied by xstrdup, which ends at the first NUL: the left pad of the old WebSocket is
-- the byte 0 all the same, for its length is set to 1 and the byte there is the terminating NUL.
unfoldable pub transport_start : CString → Transports
transport_start eval_func = record {
  jsonp_properties = elim eval_func [
    | [] ↦ record { left = none; right = none }
    | c ∷ cs ↦ record { left = some ((c ∷ cs) ++ codes "('"); right = some (codes "')") }
  ];
  xhrstreaming_properties = record { left = none; right = some (10 ∷ 10 ∷ []) };
  sse_properties = record {
    left = some (codes "Event: ape-event" ++ 10 ∷ codes "Data: ");
    right = some (10 ∷ 10 ∷ []);
  };
  websocket_properties = record { left = some (0 ∷ []); right = some (255 ∷ []) };
  websocket_ietf_properties = record { left = none; right = none };
}

unfoldable pub transport_get_properties : Transport → Transports → Option Padding
transport_get_properties xhrstreaming t = some t.xhrstreaming_properties
transport_get_properties jsonp t = some t.jsonp_properties
transport_get_properties sse_longpolling t = some t.sse_properties
transport_get_properties websocket t = some t.websocket_properties
transport_get_properties websocket_ietf t = some t.websocket_ietf_properties
transport_get_properties _ t = none

-- ALIVE, ADIED
pub data SubState : Type 0 where
  alive adied : SubState

-- struct _transport_open_same_host_p over the sockets of the connection and of the request
pub record SameHost {ℓ} (S : Type ℓ) : Type ℓ where
  pub client_close : S
  pub client_listener : S
  pub substate : SubState
  pub attach : Bool

unfoldable pub transport_open_same_host {ℓ} : {S : Type ℓ} → S → S → Transport → SameHost S
transport_open_same_host sub_client client persistant = record {
  client_close = client;
  client_listener = sub_client;
  substate = alive;
  attach = false;
}
transport_open_same_host sub_client client xhrstreaming = record {
  client_close = client;
  client_listener = sub_client;
  substate = alive;
  attach = false;
}
transport_open_same_host sub_client client sse_longpolling = record {
  client_close = client;
  client_listener = sub_client;
  substate = alive;
  attach = false;
}
transport_open_same_host sub_client client _ = record {
  client_close = sub_client;
  client_listener = client;
  substate = adied;
  attach = true;
}

-- whether transport_data_completly_sent calls do_died
unfoldable pub dies_when_sent : Transport → Bool
dies_when_sent persistant = false
dies_when_sent xhrstreaming = false
dies_when_sent sse_longpolling = false
dies_when_sent websocket = false
dies_when_sent websocket_ietf = false
dies_when_sent _ = true
