-- ===== src/Server/Tests.antt =====
-- A server with three uris and two clients.
use websockets.Prelude.{
  ◌≡◌, ◌↔◌, ◌⊎◌, inl, inr, refl, Bool-cases, true, false, none, some, List, [], ◌∷◌, ◌++◌, arith,
}
use websockets.Text.{Text, codes, text_eq}
use websockets.Assoc.{Assoc, lookup, keys}
use websockets.Payload.{text}
use websockets.Target.{uri_matches}
use websockets.Server.{Server, UriCallbacks, message, default_settings, new_server, send}
use websockets.Server.Routing.{longest_uri_match, upgrade_allowed}
use websockets.Server.Routing.Laws.{Holds, IsLongest, longest_uri_match_iff}
use websockets.Server.Routing.Filter.{upgrade_allowed_iff}
use websockets.Server.Clients.Invariant.{WellFormed}
use websockets.Server.Clients.{register_ws_client}
use websockets.Server.Lifecycle.{calls_of}
use websockets.Server.Receive.{on_ws_message, call_if}
use websockets.Server.Receive.Delivery.{matched_handler, on_ws_message-register_ws_client}
use websockets.Server.Sends.{broadcast}
use websockets.Server.Sends.Reach.{Occurs, Selected, broadcast_iff}

abbrev silent : UriCallbacks
silent = record {
  on_connection_change = some 1;
  on_client_message_received = some 2;
  on_client_content_received = none;
  on_request_received = none;
}

abbrev uris : Assoc Text UriCallbacks
uris = (codes "/a", silent) ∷ (codes "/a/b", silent) ∷ (codes "/c", silent) ∷ []

abbrev path : Text
path = codes "/a/b/x"

abbrev server : Server
server = record (new_server (record default_settings { allowed_uris = some (codes "/a" ∷ []) })) {
  acceptor = some 0;
  uris = uris;
  next_connection_id = 3;
  clients =
      (1, record { session = 10; uri = codes "/a"; is_ssl = false })
      ∷ (2, record { session = 20; uri = codes "/a"; is_ssl = true })
      ∷ [];
  uri_counts = (codes "/a", 2) ∷ [];
}

longest_uri_match_iff_example :
    (longest_uri_match uris path ≡ codes "/a/b") ↔ IsLongest path (keys uris) [] (codes "/a/b")
longest_uri_match_iff_example = longest_uri_match_iff uris path (codes "/a/b")

upgrade_allowed_iff_example : (upgrade_allowed server path ≡ true) ↔ (
    (server.settings.allowed_uris ≡ none)
    ⊎ ((allowed : List Text) × (server.settings.allowed_uris ≡ some allowed)
        × ((uri : Text) × Holds uri allowed × (uri_matches uri path ≡ true))))
upgrade_allowed_iff_example = upgrade_allowed_iff server path

server-WellFormed : WellFormed server
unfolding new_server lookup
server-WellFormed = record {
  ids = (((omega arith), (omega arith)), (((omega arith), (omega arith)), tt));
  distinct = ((refl, tt), (tt, tt));
  fewer = omega arith;
  no_wrap = omega arith;
  counted = λ uri n. elim (Bool-cases (text_eq (codes "/a") uri)) [ inl e ↦ rw e | inr e ↦ rw e ];
  listening = λ e. cc;
}

broadcast_iff_example :
    Occurs (send 10 (text (codes "x"))) (broadcast server (some (codes "/a")) (text (codes "x")))
    ↔ Selected server (some (codes "/a")) 10
broadcast_iff_example =
    broadcast_iff server (some (codes "/a")) (text (codes "x")) 10 server-WellFormed

on_ws_message-register_ws_client_example :
    calls_of (on_ws_message (register_ws_client server 30 path false).0 3 (codes "m"))
    ≡ call_if server.client_cbs.on_client_message_received (λ h. message h 3 (codes "m"))
      ++ call_if
          (matched_handler (λ c. c.on_client_message_received) server path)
          (λ h. message h 3 (codes "m"))
unfolding new_server
on_ws_message-register_ws_client_example =
    on_ws_message-register_ws_client server 30 0 path false (codes "m") refl refl
