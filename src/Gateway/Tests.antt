-- ===== src/Gateway/Tests.antt =====
-- A socket that becomes a client.
use websockets.Prelude.{◌≡◌, ◌≢◌, refl, true, false, Option, none, some, [], ◌∷◌, arith}
use websockets.Text.{Text, codes, find, text_eq}
use websockets.Assoc.{Assoc, lookup, insert, nat_key}
use websockets.Target.{parse_target, target_path, uri_matches}
use websockets.Server.{
  ServerSettings, ClientEntry, default_settings, new_server, no_client_callbacks,
}
use websockets.Server.Routing.{upgrade_allowed, longest_uri_match}
use websockets.Accept as Accept
use websockets.Accept.{on_async_accept, on_detect}
use websockets.Accept.Loop.{Fits}
use websockets.Http.Connection.{success, HttpRequest, on_read, run}
use websockets.Http.Cycle as Cycle
use websockets.Session.{on_accept}
use websockets.Session.Strand as Strand
use websockets.Session.Strand.{new_strand}
use websockets.Service.{starts, accepted, stops}
use websockets.Service as Service
use websockets.Gateway.{Gate, free, unmade, accepts, reads, serves, step, Reach, here, next}
use websockets.Gateway.Safety.{gate_safe, clients_fit_settings}

abbrev chat_settings : ServerSettings
chat_settings = record default_settings { allowed_uris = some (codes "/chat" ∷ []) }

abbrev upgrade_request : HttpRequest
upgrade_request = record {
  is_upgrade = true;
  target = codes "/chat";
  method = codes "GET";
  version = 11;
  keep_alive = true;
  content_type = [];
  body = [];
}

abbrev empty_gate : Gate
empty_gate = record {
  world = record { server = new_server chat_settings; sessions = λ k. unmade; inbox = [] };
  stages = λ k. free;
}

abbrev or_empty : Option Gate → Gate
or_empty none = empty_gate
or_empty (some g) = g

abbrev listening_gate : Gate
listening_gate = or_empty (step empty_gate (serves (starts 7 (some 80) no_client_callbacks)))

abbrev connected_gate : Gate
connected_gate = or_empty (step listening_gate (accepts 4 Accept.success))

abbrev upgraded_gate : Gate
upgraded_gate = or_empty (step connected_gate (reads 4 success upgrade_request))

abbrev client_gate : Gate
client_gate = or_empty (step upgraded_gate (serves (accepted 4)))

client-Reach : Reach chat_settings client_gate
unfolding step new_server Service.step on_async_accept run Cycle.fire Cycle.new_conn on_read
    Strand.fire on_accept new_strand parse_target find uri_matches text_eq
client-Reach =
    next (serves (accepted 4))
      (next (reads 4 success upgrade_request)
        (next (accepts 4 Accept.success)
          (next (serves (starts 7 (some 80) no_client_callbacks))
            (here (record {
              server_is_new = refl;
              nothing_made = refl;
              nothing_posted = refl;
              nothing_accepted = refl;
            }))
            tt refl)
          refl refl)
        (_, refl, (refl, refl), omega arith) refl)
      (refl, omega arith) refl

gate_safe_example : step client_gate (serves stops) ≢ none
gate_safe_example = gate_safe chat_settings (serves stops) client-Reach tt

abbrev chat_client : ClientEntry
chat_client = record {
  session = 4;
  uri = longest_uri_match [] (target_path (codes "/chat"));
  is_ssl = false;
}

clients_fit_settings_example :
    let session = (client_gate.world.sessions 4).session in
    (path : Text) × (parameters : Assoc Text Text) × (parse_target session.target
      ≡ some (path, parameters))
    × (upgrade_allowed client_gate.world.server path ≡ true)
    × Fits chat_settings session.is_ssl
unfolding step new_server Service.step on_async_accept run Cycle.fire Cycle.new_conn on_read
    Strand.fire on_accept new_strand parse_target find uri_matches text_eq lookup insert
clients_fit_settings_example = clients_fit_settings chat_settings 1 chat_client client-Reach refl
