-- ===== src/Server/Lifecycle/Once.antt =====
-- What the sections choose to tell of one client, whichever of `OnWsClosed`, `RemoveClient`, `Stop`
-- and `Shutdown` come first, and however the threads interleave.
use websockets.Prelude.{
  ℕ, ◌+◌, ◌^◌, ◌≤◌, ◌<◌, ◌≡◌, ◌≢◌, refl, true, Option, none, some, List, [], ◌∷◌, arith, if_elim,
  inl, length, All,
}
use websockets.Text.{Text}
use websockets.Assoc.{Assoc, nat_key}
use websockets.Server.{ServerSettings, ClientCallbacks, UriCallbacks, accept_next, new_server}
use websockets.Server.Clients.{
  register_ws_client, register_locked, on_ws_closed, release_client, stop_locked, start,
  start_locked, add_uri, remove_uri, take_connection_id, is_some, uri_count,
}
use websockets.Server.Clients.Counts.{num_at}
use websockets.Server.Clients.Invariant.{
  start_locked-WellFormed, flags-WellFormed, take_connection_id-WellFormed,
}
use websockets.Server.Lifecycle.{
  System, Event, starts, stops, shuts_down, takes_id, registers, closes, removes, notifies,
  adds_uri, removes_uri, act, after_start, stop_section, remove_section, notify_section,
  shut_down_section, step, run, new_system,
}
use websockets.Server.Lifecycle.Sections.{
  AreSet, Inv, new_system-Inv, stop_section-Inv, remove_section-Inv, notify_section-Inv, quiet-Inv,
}
use websockets.Server.Lifecycle.Tally.{num_added, num_closed, num_connected, num_due}
use websockets.Server.Lifecycle.Registry.{closes-Inv, registers-Inv}

-- Every start of the run sets them.
abbrev pub SetsCallbacks : Event → Type 0
SetsCallbacks (starts acceptor bound cbs) = AreSet cbs
SetsCallbacks _ = Unit

module _ (sys : System) (v : Inv sys) where
  starts-Inv :
      (acceptor : ℕ) (bound : Option ℕ) (cbs : ClientCallbacks)
      → AreSet cbs
      → Inv (step sys (starts acceptor bound cbs))
  unfolding step start
  starts-Inv acceptor none cbs set =
      if_elim (λ r. Inv (after_start sys r)) sys.server.shutdown (λ _. v) (λ _. v)
  starts-Inv acceptor (some port) cbs set =
      if_elim (λ r. Inv (after_start sys r)) sys.server.shutdown (λ _. v)
        (λ _.
          if_elim (λ r. Inv (after_start sys r)) (is_some sys.server.acceptor) (λ _. v)
            (λ _.
              quiet-Inv sys v (start_locked sys.server acceptor port cbs)
                (accept_next acceptor ∷ []) refl
                (start_locked-WellFormed sys.server v.well acceptor port cbs) refl (omega arith)
                (inl set)))

  flagged-Inv : Inv (record sys { server = record sys.server { shutdown = true } })
  flagged-Inv = record {
    well = flags-WellFormed sys.server v.well true sys.server.uris;
    balance = v.balance;
    once = v.once;
    unused = v.unused;
    ready = v.ready;
  }

  shuts_down-Inv : Inv (shut_down_section sys)
  unfolding shut_down_section
  shuts_down-Inv = if_elim Inv sys.server.shutdown (λ _. v) (λ _. stop_section-Inv _ flagged-Inv)

  -- A change of the registered uris alone.
  uris-Inv : (uris : Assoc Text UriCallbacks) → Inv (act sys (record sys.server { uris = uris }) [])
  uris-Inv uris =
      quiet-Inv sys v (record sys.server { uris = uris }) [] refl
        (flags-WellFormed sys.server v.well sys.server.shutdown uris) refl (omega arith) v.ready

  step-Inv :
      (e : Event) → SetsCallbacks e → sys.server.next_connection_id + 1 < 2 ^ 32 → Inv (step sys e)
  unfolding step take_connection_id add_uri remove_uri
  step-Inv (starts acceptor bound cbs) set room = starts-Inv acceptor bound cbs set
  step-Inv stops set room = stop_section-Inv sys v
  step-Inv shuts_down set room = shuts_down-Inv
  step-Inv takes_id set room =
      quiet-Inv sys v (take_connection_id sys.server).0 [] refl
        (take_connection_id-WellFormed sys.server v.well room) refl (omega arith) v.ready
  step-Inv (registers session target is_ssl) set room =
      registers-Inv sys v session target is_ssl room
  step-Inv (closes id) set room = closes-Inv sys v id
  step-Inv (removes id) set room = remove_section-Inv sys v id
  step-Inv (notifies n) set room = notify_section-Inv sys v n
  step-Inv (adds_uri uri cbs) set room = uris-Inv _
  step-Inv (removes_uri uri) set room = uris-Inv _

pub step-next_id :
    (sys : System) (e : Event)
    → (step sys e).server.next_connection_id ≤ sys.server.next_connection_id + 1
unfolding step start register_ws_client register_locked on_ws_closed release_client stop_section
    stop_locked remove_section notify_section shut_down_section take_connection_id add_uri
    remove_uri
step-next_id sys (starts acceptor bound cbs) = ground arith
step-next_id sys (registers session target is_ssl) = ground arith
step-next_id sys (closes id) = ground arith
step-next_id sys (removes id) = ground arith
step-next_id sys (notifies n) = ground arith
step-next_id sys e = ground arith

run-Inv :
    (sys : System) (es : List Event)
    → All SetsCallbacks es
    → sys.server.next_connection_id + length es < 2 ^ 32
    → Inv sys
    → Inv (run sys es)
unfolding run
run-Inv sys [] sets room v = v
run-Inv sys (e ∷ es) sets room v =
    run-Inv (step sys e) es sets.1 (omega (arith, step-next_id sys e))
      (step-Inv sys v e sets.0 (omega arith))

-- In every run of a new server whose starts set both callbacks, and which is shorter than the
-- supply of ids: the call of a client's added callback is chosen at most once, and exactly as often
-- as the client stands in the map, or awaits its notification, or its closed callback is chosen.
pub run-closed_once :
    (settings : ServerSettings) (es : List Event) (id : ℕ)
    → All SetsCallbacks es
    → length es + 1 < 2 ^ 32
    → let sys = run (new_system settings) es in
      (num_added id sys.chosen ≤ 1)
      × (num_closed id sys.chosen + (num_connected id sys.server.clients + num_due id sys.pending)
          ≡ num_added id sys.chosen)
unfolding new_system new_server
run-closed_once settings es id sets room =
    let v = run-Inv (new_system settings) es sets (omega arith) (new_system-Inv settings) in
    (v.once id, v.balance id)

-- In such a run the count that the server keeps for a uri other than "" is at every time the
-- number of the clients on that uri.
run-counted :
    (settings : ServerSettings) (es : List Event) (uri : Text)
    → All SetsCallbacks es
    → length es + 1 < 2 ^ 32
    → uri ≢ []
    → let s = (run (new_system settings) es).server in
      uri_count s.uri_counts uri ≡ num_at uri s.clients
unfolding new_system new_server
run-counted settings es uri sets room u =
    (run-Inv (new_system settings) es sets (omega arith) (new_system-Inv settings)).well.counted uri
      u
