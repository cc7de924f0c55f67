-- ===== src/Server/Lifecycle.antt =====
-- The server under concurrent threads: every section under the lock of `CWebsocketServer::CImpl`
-- is one step. `Stop`, `Shutdown` and `RemoveClient` leave the lock before they call
-- `NotifyClosedSync`, so the notifications that are still to be made are part of the state, and
-- any of them may be made next. The calls of callbacks are chosen, with their arguments, under the
-- lock; Lifecycle/Delivery is how they are posted and made after it.
pub mod Tally
pub mod Sections
pub mod Registry
pub mod Abstract
pub mod Once
pub mod Ended
pub mod Delivery
mod Tests
use websockets.Prelude.{
  ℕ, zero, suc, ◌+◌, ◌≡◌, Bool, true, false, Option, none, some, List, [], ◌∷◌, ◌++◌, ◌==◌,
  if◌then◌else◌, map,
}
use websockets.Text.{Text}
use websockets.Assoc.{Assoc, lookup, nat_key}
use websockets.Server.{
  Server, ServerSettings, ClientCallbacks, UriCallbacks, ClientEntry, Call, added, closed,
  connection_change, message, received, Effect, post, invoke, close_session, send, close_acceptor,
  accept_next, stop_work_queue, log_not_connected, new_server,
}
use websockets.Server.Clients.{
  register_ws_client, on_ws_closed, release_client, notify_closed_sync, stop_locked, start, started,
  failed, StartResult, add_uri, remove_uri, take_connection_id,
}

pub record System : Type 0 where
  pub server : Server
  -- the notifications that `Stop` and `RemoveClient` have still to make
  pub pending : List (ℕ × Text)
  -- the calls of callbacks that the sections have chosen, in the order of the sections
  pub chosen : List Call

pub data Event : Type 0 where
  starts : ℕ → Option ℕ → ClientCallbacks → Event
  stops shuts_down takes_id : Event
  registers : ℕ → Text → Bool → Event
  closes removes notifies : ℕ → Event
  adds_uri : Text → UriCallbacks → Event
  removes_uri : Text → Event

-- The callbacks among the effects.
abbrev pub calls_of : List Effect → List Call
calls_of [] = []
calls_of (post calls ∷ rest) = calls ++ calls_of rest
calls_of (invoke call ∷ rest) = call ∷ calls_of rest
calls_of (_ ∷ rest) = calls_of rest

abbrev pub uris_of : Assoc ℕ ClientEntry → List (ℕ × Text)
uris_of [] = []
uris_of ((id, entry) ∷ m) = (id, entry.uri) ∷ uris_of m

abbrev pub pick : {A : Type 0} → ℕ → List A → Option (A × List A)
pick n [] = none
pick zero (p ∷ ps) = some (p, ps)
pick (suc n) (p ∷ ps) = elim (pick n ps) [ none ↦ none | some (q, qs) ↦ some (q, p ∷ qs) ]

-- A section, with the calls that it chooses.
abbrev pub act : System → Server → List Effect → System
act sys s effects = record sys { server = s; chosen = sys.chosen ++ calls_of effects }

abbrev pub after_start : System → StartResult → System
after_start sys (started s effects) = act sys s effects
after_start sys (failed e) = sys

-- `Stop` up to its notifications.
pub stop_section : System → System
unfolding stop_locked
stop_section sys = record sys {
  server = stop_locked sys.server;
  pending = sys.pending ++ uris_of sys.server.clients;
}

-- `RemoveClient` up to its notification.
pub remove_section : System → ℕ → System
unfolding release_client
remove_section sys id = elim (lookup id sys.server.clients) [
  | none ↦ sys
  | some entry ↦ record sys {
    server = release_client sys.server id entry;
    pending = sys.pending ++ (id, entry.uri) ∷ [];
  }
]

-- The call of `NotifyClosedSync` number `n` among those that are due.
pub notify_section : System → ℕ → System
unfolding notify_closed_sync
notify_section sys n = elim (pick n sys.pending) [
  | none ↦ sys
  | some ((id, uri), rest) ↦ record (act sys sys.server (notify_closed_sync sys.server id uri)) {
    pending = rest;
  }
]

pub shut_down_section : System → System
unfolding stop_section
shut_down_section sys =
    if sys.server.shutdown
    then sys
    else stop_section (record sys { server = record sys.server { shutdown = true } })

pub step : System → Event → System
unfolding stop_section remove_section notify_section shut_down_section
step sys (starts acceptor bound cbs) = after_start sys (start sys.server acceptor bound cbs)
step sys stops = stop_section sys
step sys shuts_down = shut_down_section sys
step sys takes_id = act sys (take_connection_id sys.server).0 []
step sys (registers session target is_ssl) =
    let r = register_ws_client sys.server session target is_ssl in act sys r.0 r.2
step sys (closes id) = let r = on_ws_closed sys.server id in act sys r.0 r.1
step sys (removes id) = remove_section sys id
step sys (notifies n) = notify_section sys n
step sys (adds_uri uri cbs) = act sys (add_uri sys.server uri cbs) []
step sys (removes_uri uri) = act sys (remove_uri sys.server uri) []

pub run : System → List Event → System
unfolding step
run sys [] = sys
run sys (e ∷ es) = run (step sys e) es

pub new_system : ServerSettings → System
unfolding new_server
new_system settings = record { server = new_server settings; pending = []; chosen = [] }
