-- ===== src/Http/Cycle/Tests.antt =====
-- Runs of a connection.
use websockets.Prelude.{◌≡◌, ◌↔◌, refl, true, false, none, some, [], ◌∷◌}
use websockets.Text.{codes, find, text_eq}
use websockets.Target.{parse_target, uri_matches}
use websockets.Assoc.{lookup}
use websockets.Server.{Server, default_settings, new_server}
use websockets.Server.Routing.{longest_from}
use websockets.Http.{HttpMsg, default_msg}
use websockets.Http.Connection.{success, HttpRequest, run, on_read}
use websockets.Http.Cycle.{
  Conn, read_done, replied, fire, new_conn, start_actions, Reach, runs, next, Refused, conn_safe,
}

abbrev get_request : HttpRequest
get_request = record {
  is_upgrade = false;
  target = codes "/a";
  method = codes "GET";
  version = 11;
  keep_alive = true;
  content_type = [];
  body = [];
}

-- A server with one handler, for "/a".
abbrev api_server : Server
api_server = record (new_server default_settings) {
  uris =
      (
        codes "/a",
        record {
          on_connection_change = none;
          on_client_message_received = none;
          on_client_content_received = none;
          on_request_received = some 5;
        },
      )
      ∷ [];
}

abbrev idle : Conn
idle = record (new_conn false) { reading = true }

idle-Reach : Reach false idle
unfolding new_conn start_actions run
idle-Reach = runs refl

-- The handler has the request of above, and replies 204 without emptying the message.
abbrev held : Conn
held = record (new_conn false) { waiting = true; requests = 1 }

held-Reach : Reach false held
unfolding new_conn start_actions run fire on_read parse_target find uri_matches text_eq longest_from
    lookup
held-Reach = next (read_done (some api_server) success get_request) idle-Reach (refl, refl) refl

abbrev no_content : HttpMsg
no_content = record default_msg { response_code = 204; body = codes "{}" }

conn_safe_example :
    (d : Conn) × (fire held (replied no_content) ≡ some d)
    × ((d.terminated ≡ true) ↔ Refused (replied no_content))
unfolding new_conn
conn_safe_example = conn_safe false (replied no_content) held-Reach (refl, refl)
