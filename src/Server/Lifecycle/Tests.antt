-- ===== src/Server/Lifecycle/Tests.antt =====
-- A run of the server.
use websockets.Prelude.{ℕ, Bool, Option, ◌++◌, ◌≡◌, false, some, none, List, [], ◌∷◌}
use websockets.Text.{Text, codes}
use websockets.Server.{ClientCallbacks, default_settings}
use websockets.Server.Clients.{start, failed, is_shut_down, register_ws_client}
use websockets.Server.Lifecycle.{
  Event, shuts_down, starts, registers, closes, removes, notifies, new_system, run,
}
use websockets.Server.Lifecycle.Ended.{run-shut_down}

abbrev callbacks : ClientCallbacks
callbacks = record {
  on_client_added = some 1;
  on_client_closed = some 2;
  on_client_message_received = none;
  on_client_content_received = none;
}

-- A client comes and is removed; its session reports the end as well.
abbrev events : List Event
events =
    starts 7 (some 80) callbacks
    ∷ registers 10 (codes "/a") false
    ∷ registers 20 (codes "/a") false
    ∷ removes 1
    ∷ closes 1
    ∷ notifies 0
    ∷ []

run-shut_down_example :
    let s = (run (new_system default_settings) (events ++ shuts_down ∷ events)).server in
    (s.acceptor ≡ none)
    × (s.clients ≡ [])
    × ((acceptor : ℕ) (bound : Option ℕ) (cbs : ClientCallbacks)
        → start s acceptor bound cbs ≡ failed is_shut_down)
    × ((session : ℕ) (target : Text) (is_ssl : Bool)
        → register_ws_client s session target is_ssl ≡ (s, 0, []))
run-shut_down_example = run-shut_down default_settings events events
