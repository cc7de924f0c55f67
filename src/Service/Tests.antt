-- ===== src/Service/Tests.antt =====
-- A run of a server with three sessions.
use websockets.Prelude.{◌∷◌, ◌≡◌, refl, true, false, Option, none, some, [], arith, ◌⊎◌}
use websockets.Text.{codes}
use websockets.Payload.{Payload, text}
use websockets.Assoc.{lookup, insert, nat_key}
use websockets.Server.{no_client_callbacks, default_settings, new_server}
use websockets.Session.{on_accept, on_send}
use websockets.Session.Strand.{fire, new_strand}
use websockets.Session.Strand.Face.{face_of}
use websockets.Service.{
  World, starts, accepted, stops, delivers, step, Reach, here, next, sends_to, sends,
}
use websockets.Service.Order.{Ordered, sent_to}
use websockets.Service.Order as Order
use websockets.Service.Order.Runs.{sent_in_order}
use websockets.Session.Strand.Order.{writes}
use mathlib.Core.List.{Sublist}
use websockets.Service.Links.{HasClose, Covered}
use websockets.Service.Runs.{no_session_forgotten, stopped_sessions_close}

abbrev empty_world : World
empty_world = record {
  server = new_server default_settings;
  sessions = λ k. new_strand default_settings.max_session_backlog false (codes "/chat");
  inbox = [];
}

abbrev or_empty : Option World → World
or_empty none = empty_world
or_empty (some w) = w

-- The server starts, a session opens and sends, and the server stops.
abbrev started_world : World
started_world = or_empty (step empty_world (starts 7 (some 80) no_client_callbacks))

abbrev opened_world : World
opened_world = or_empty (step started_world (accepted 4))

abbrev stopped_world : World
stopped_world = or_empty (step opened_world stops)

empty-Reach : Reach empty_world
empty-Reach = here (record {
  settings = default_settings;
  server_is_new = refl;
  ssl = λ k. false;
  target = λ k. codes "/chat";
  sessions_are_new = refl;
  nothing_posted = refl;
})

opened-Reach : Reach opened_world
unfolding step new_server new_strand fire on_accept
opened-Reach =
    next (accepted 4) (next (starts 7 (some 80) no_client_callbacks) empty-Reach tt refl)
      (refl, omega arith) refl

stopped-Reach : Reach stopped_world
unfolding step new_server new_strand fire on_accept
stopped-Reach = next stops opened-Reach tt refl

no_session_forgotten_example :
    Covered opened_world.server (face_of (opened_world.sessions 4).session) opened_world.inbox 4
unfolding step new_server new_strand fire on_accept
no_session_forgotten_example = no_session_forgotten 4 opened-Reach refl

stopped_sessions_close_example :
    ((stopped_world.sessions 4).session.close_requested ≡ true) ⊎ HasClose 4 stopped_world.inbox
unfolding step new_server new_strand fire on_accept
stopped_sessions_close_example = stopped_sessions_close 4 stopped-Reach refl refl

-- Two texts are sent to the session of the first client, and their posts run.
abbrev greeting : Payload
greeting = text (codes "hello")

abbrev farewell : Payload
farewell = text (codes "bye")

abbrev greeted_world : World
greeted_world = or_empty (step opened_world (sends_to 1 greeting))

abbrev sent_world : World
sent_world = or_empty (step greeted_world (sends_to 1 farewell))

abbrev half_world : World
half_world = or_empty (step sent_world (delivers 0))

abbrev whole_world : World
whole_world = or_empty (step half_world (delivers 0))

empty-Ordered : Ordered empty_world []
empty-Ordered = Order.here (record {
  settings = default_settings;
  server_is_new = refl;
  ssl = λ k. false;
  target = λ k. codes "/chat";
  sessions_are_new = refl;
  nothing_posted = refl;
})

whole-Ordered : Ordered whole_world ((4, sends greeting) ∷ (4, sends farewell) ∷ [])
unfolding step new_server new_strand fire on_accept on_send lookup insert
whole-Ordered =
    Order.next (delivers 0)
      (Order.next (delivers 0)
        (Order.next (sends_to 1 farewell)
          (Order.next (sends_to 1 greeting)
            (Order.next (accepted 4)
              (Order.next (starts 7 (some 80) no_client_callbacks) empty-Ordered tt tt refl)
              (refl, omega arith) tt refl)
            tt tt refl)
          tt tt refl)
        tt (4, refl) refl)
      tt (4, refl) refl

sent_in_order_example :
    Sublist
      (writes (whole_world.sessions 4).trace)
      (sent_to 4 ((4, sends greeting) ∷ (4, sends farewell) ∷ []))
sent_in_order_example = sent_in_order 4 whole-Ordered
