-- ===== src/Server/Lifecycle/Delivery/Tests.antt =====
-- Two clients that register at once, whose threads post in the other order.
use websockets.Prelude.{◌+◌, ◌≤◌, ◌≡◌, refl, false, none, some, List, [], ◌∷◌, ◌++◌, arith}
use websockets.Text.{codes}
use websockets.Server.{ClientCallbacks, default_settings}
use websockets.Assoc.{lookup, insert}
use websockets.Server.Clients.{register_ws_client, start}
use websockets.Server.Routing.{longest_uri_match, longest_from}
use websockets.Server.Lifecycle.{starts, registers, removes, notifies, step, new_system}
use websockets.Server.Lifecycle.Tally.{num_added, num_closed, num_connected}
use websockets.Server.Lifecycle.Delivery.{
  Turn, enters, posts, makes, works, turns, new_delivery, Settled,
}
use websockets.Server.Lifecycle.Delivery.Once.{made_once, made_balanced}

abbrev callbacks : ClientCallbacks
callbacks = record {
  on_client_added = some 1;
  on_client_closed = some 2;
  on_client_message_received = none;
  on_client_content_received = none;
}

abbrev both_enter : List Turn
both_enter =
    enters (starts 7 (some 80) callbacks)
    ∷ enters (registers 10 (codes "/a") false)
    ∷ enters (registers 20 (codes "/b") false)
    ∷ enters (removes 1)
    ∷ enters (notifies 0)
    ∷ posts 2
    ∷ posts 3
    ∷ works
    ∷ makes 0
    ∷ works
    ∷ []

made_once_example :
    let d = turns (new_delivery default_settings) both_enter in
    (num_added 1 d.made ≤ 1) × (num_closed 1 d.made ≤ 1)
made_once_example =
    made_once default_settings both_enter 1 (((λ e. cc), (λ e. cc)), (tt, (tt, (tt, (tt, tt)))))
      (omega arith)

abbrev drained : List Turn
drained =
    posts 0
    ∷ posts 0
    ∷ posts 0
    ∷ posts 0
    ∷ posts 0
    ∷ makes 0
    ∷ makes 0
    ∷ makes 0
    ∷ makes 0
    ∷ makes 0
    ∷ []

both_enter-Settled : Settled (turns (new_delivery default_settings) (both_enter ++ drained))
unfolding turns register_ws_client step start new_system lookup insert longest_uri_match
    longest_from
both_enter-Settled = record {
  goes = refl;
  queue_empty = refl;
  all_posted = refl;
  all_called = refl;
  all_told = refl;
}

made_balanced_example :
    let d = turns (new_delivery default_settings) (both_enter ++ drained) in
    num_added 1 d.made ≡ num_closed 1 d.made + num_connected 1 d.system.server.clients
made_balanced_example =
    made_balanced default_settings (both_enter ++ drained) 1
      (((λ e. cc), (λ e. cc)), (tt, (tt, (tt, (tt, tt))))) (omega arith) both_enter-Settled
