-- ===== src/Examples/Tests.antt =====
-- A request for the status, arguments of the programs, and an echo.
use websockets.Prelude.{◌++◌, Option, arith, ◌≡◌, refl, true, false, none, some, [], ◌∷◌}
use websockets.Text.{codes, find, text_eq}
use websockets.Target.{target_path, parse_target, uri_matches}
use websockets.Http.Wrapper.{HttpWrapper, runs, lifetime, interleave}
use websockets.Http.{HttpMsg}
use websockets.Http.Connection.{
  success, HttpRequest, async_write, post_request, on_read, send_response,
}
use websockets.Assoc.{lookup, insert}
use websockets.Payload.{text}
use websockets.Server.{Call, ClientEntry, default_settings, new_server, message}
use websockets.Server.Clients.{add_uri, register_ws_client, register_locked, start, start_locked}
use websockets.Server.Routing.{longest_uri_match, longest_from, uri_handler}
use websockets.Server.Receive.{on_ws_message, lookup_receive_callbacks, uri_receiver}
use websockets.Session as Session
use websockets.Session.{on_accept, on_send}
use websockets.Session.Strand as Strand
use websockets.Session.Strand.{new_strand, fire, read_done}
use websockets.Session.Strand.Order.{writes}
use websockets.Session.Strand.Reads.{reads}
use websockets.Service.{World, sends, starts, accepted, acts, delivers, sends_to, adds_uri, step}
use mathlib.Core.List.{Sublist}
use websockets.Examples.EchoServer.{callbacks, api_callbacks, sends_back}
use websockets.Examples.EchoServer.Runs.{posted, Runs, here, occurs, echoes}
use websockets.Examples.EchoServer.Echo.{echoed_in_order}
use websockets.Examples.EchoServer.Answer.{read_as, read_is_posted, reply_reaches_reader}
use websockets.Examples.{stoul}
use websockets.Examples.EchoServer.{prepared, answers}
use websockets.Examples.EchoServer.Status.{status_response, status_answered}

stoul_reads :
    (stoul (codes " 8080 ") ≡ some 8080)
    × (stoul (codes "-1") ≡ some 18446744073709551615)
    × (stoul (codes "port") ≡ none)
    × (stoul (codes "18446744073709551616") ≡ none)
unfolding stoul
stoul_reads = (refl, refl, refl, refl)

abbrev status_request : HttpRequest
status_request = record {
  is_upgrade = false;
  target = codes "/api/status";
  method = codes "GET";
  version = 11;
  keep_alive = true;
  content_type = [];
  body = [];
}

status_answered_example :
    (wrapper : HttpWrapper) × ((on_read (some prepared) success status_request).1
      ≡ post_request 4 wrapper ∷ [])
    × (msg : HttpMsg) × ((lifetime
          (record { wrapper = wrapper; posted = 0; sent = [] })
          (interleave (false ∷ true ∷ []) answers)
          (runs ∷ [])).sent
        ≡ msg ∷ [])
    × (send_response msg ≡ async_write (status_response status_request) ∷ [])
unfolding parse_target find uri_matches text_eq
status_answered_example =
    status_answered prepared status_request (codes "/api/status") [] (false ∷ true ∷ []) refl refl
      refl refl

-- A client says hello, and hears it.
abbrev quiet_world : World
quiet_world = record {
  server = new_server default_settings;
  sessions = λ k. new_strand default_settings.max_session_backlog false (codes "/chat");
  inbox = [];
}

abbrev or_quiet : Option World → World
or_quiet none = quiet_world
or_quiet (some w) = w

abbrev hello : Strand.Event
hello = read_done Session.success true (codes "hello")

abbrev routed_world : World
routed_world = or_quiet (step quiet_world (adds_uri (codes "/api") api_callbacks))

abbrev open_world : World
open_world = or_quiet (step routed_world (starts 7 (some 80) callbacks))

abbrev joined_world : World
joined_world = or_quiet (step open_world (accepted 4))

abbrev told_world : World
told_world = or_quiet (step joined_world (acts 4 hello))

abbrev answered_world : World
answered_world = or_quiet (step told_world (sends_to 1 (text (codes "hello"))))

abbrev heard_world : World
heard_world = or_quiet (step answered_world (delivers 0))

quiet-Runs : Runs quiet_world [] []
quiet-Runs = here (record {
  settings = default_settings;
  server_is_new = refl;
  ssl = λ k. false;
  target = λ k. codes "/chat";
  sessions_are_new = refl;
  nothing_posted = refl;
})

joined-Runs : Runs joined_world [] []
unfolding step new_server new_strand fire on_accept on_send Session.on_read lookup insert
    on_ws_message lookup_receive_callbacks uri_receiver sends_back longest_uri_match longest_from
    uri_matches uri_handler text_eq find target_path add_uri register_ws_client register_locked
    start start_locked
joined-Runs =
    occurs (accepted 4)
      (occurs (starts 7 (some 80) callbacks)
        (occurs (adds_uri (codes "/api") api_callbacks) quiet-Runs refl tt tt refl) refl tt tt refl)
      tt (refl, omega arith) tt refl

told-Runs : Runs told_world ((4, message 2 1 (codes "hello")) ∷ []) []
unfolding step new_server new_strand fire on_accept on_send Session.on_read lookup insert
    on_ws_message lookup_receive_callbacks uri_receiver sends_back longest_uri_match longest_from
    uri_matches uri_handler text_eq find target_path add_uri register_ws_client register_locked
    start start_locked
told-Runs = occurs (acts 4 hello) joined-Runs tt (refl, (refl, λ e. cc)) tt refl

heard-Runs : Runs heard_world [] ((4, sends (text (codes "hello"))) ∷ [])
unfolding step new_server new_strand fire on_accept on_send Session.on_read lookup insert
    on_ws_message lookup_receive_callbacks uri_receiver sends_back longest_uri_match longest_from
    uri_matches uri_handler text_eq find target_path add_uri register_ws_client register_locked
    start start_locked
heard-Runs =
    occurs (delivers 0)
      (echoes 4 (message 2 1 (codes "hello")) 1 (text (codes "hello")) told-Runs refl refl) tt tt
      (4, refl) refl

echoed_in_order_example :
    Sublist (writes (heard_world.sessions 4).trace) (reads (heard_world.sessions 4).trace)
echoed_in_order_example = echoed_in_order 4 heard-Runs

read_is_posted_example :
    (c : Call) × (posted joined_world (acts 4 hello) ≡ (4, c) ∷ [])
    × (sends_back c
        ≡ some ((joined_world.sessions 4).session.client_id, read_as true (codes "hello")))
unfolding step new_server new_strand fire on_accept on_send Session.on_read lookup insert
    on_ws_message lookup_receive_callbacks uri_receiver sends_back longest_uri_match longest_from
    uri_matches uri_handler text_eq find target_path add_uri register_ws_client register_locked
    start start_locked
read_is_posted_example = read_is_posted 4 true (codes "hello") joined-Runs refl

abbrev caller : ClientEntry
caller = record { session = 4; uri = []; is_ssl = false }

reply_reaches_reader_example :
    step told_world (sends_to 1 (text (codes "hello")))
    ≡ some
        (record told_world { inbox = told_world.inbox ++ (4, sends (text (codes "hello"))) ∷ [] })
unfolding step new_server new_strand fire on_accept on_send Session.on_read lookup insert
    on_ws_message lookup_receive_callbacks uri_receiver sends_back longest_uri_match longest_from
    uri_matches uri_handler text_eq find target_path add_uri register_ws_client register_locked
    start start_locked
reply_reaches_reader_example =
    reply_reaches_reader 4 (message 2 1 (codes "hello")) 1 (text (codes "hello")) caller told-Runs
      refl refl
