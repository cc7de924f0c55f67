-- ===== src/Server/Lifecycle/Abstract/Runs.antt =====
-- The whole runs of the server against the abstract one.
use websockets.Prelude.{
  ℕ, ◌+◌, ◌^◌, ◌<◌, Bool, true, not, ◌||◌, Option, none, some, arith, Bool-cases, Option-cases, inl,
  inr, if_elim,
}
use websockets.Text.{Text}
use websockets.Assoc.{lookup, nat_key}
use websockets.Server.{ClientCallbacks}
use websockets.Server.Clients.{
  register_ws_client, on_ws_closed, start, is_some, add_uri, remove_uri,
}
use websockets.Server.Clients.Invariant.{
  WellFormed, register_locked-WellFormed, release_client-WellFormed, stop_locked-WellFormed,
  start_locked-WellFormed, take_connection_id-WellFormed, flags-WellFormed,
}
use websockets.Server.Lifecycle.{
  System, Event, starts, stops, shuts_down, takes_id, registers, closes, removes, notifies,
  adds_uri, removes_uri, pick, after_start, stop_section, remove_section, notify_section,
  shut_down_section, step,
}

module _ (sys : System) (v : WellFormed sys.server) where
  abbrev Kept : Event → Type 0
  Kept e = WellFormed (step sys e).server

  starts-Kept :
      (acceptor : ℕ) (bound : Option ℕ) (cbs : ClientCallbacks) → Kept (starts acceptor bound cbs)
  unfolding step start
  starts-Kept acceptor none cbs =
      if_elim (λ r. WellFormed (after_start sys r).server) sys.server.shutdown (λ _. v) (λ _. v)
  starts-Kept acceptor (some port) cbs =
      if_elim (λ r. WellFormed (after_start sys r).server) sys.server.shutdown (λ _. v)
        (λ _.
          if_elim (λ r. WellFormed (after_start sys r).server) (is_some sys.server.acceptor)
            (λ _. v) (λ _. start_locked-WellFormed sys.server v acceptor port cbs))

  shuts_down-Kept : Kept shuts_down
  unfolding step shut_down_section stop_section
  shuts_down-Kept =
      if_elim (λ (t : System). WellFormed t.server) sys.server.shutdown (λ _. v)
        (λ _.
          stop_locked-WellFormed (record sys.server { shutdown = true })
            (flags-WellFormed sys.server v true sys.server.uris))

  registers-Kept :
      (session : ℕ) (target : Text) (is_ssl : Bool)
      → sys.server.next_connection_id + 1 < 2 ^ 32
      → Kept (registers session target is_ssl)
  unfolding step register_ws_client
  registers-Kept session target is_ssl room =
      elim (Bool-cases (sys.server.shutdown || not (is_some sys.server.acceptor))) [
        | inl e ↦ rw e v
        | inr e ↦
            rw e (register_locked-WellFormed sys.server v session _ is_ssl (λ a. ground arith) room)
      ]

  closes-Kept : (id : ℕ) → Kept (closes id)
  unfolding step on_ws_closed
  closes-Kept id = elim (Option-cases (lookup id sys.server.clients)) [
    | inl e ↦ rw (e, on_ws_closed) v
    | inr (entry, e) ↦ rw (e, on_ws_closed) (release_client-WellFormed sys.server v id entry e)
  ]

  removes-Kept : (id : ℕ) → Kept (removes id)
  unfolding step remove_section
  removes-Kept id = elim (Option-cases (lookup id sys.server.clients)) [
    | inl e ↦ rw (e, remove_section) v
    | inr (entry, e) ↦ rw (e, remove_section) (release_client-WellFormed sys.server v id entry e)
  ]

  notifies-Kept : (n : ℕ) → Kept (notifies n)
  unfolding step notify_section
  notifies-Kept n = elim (Option-cases (pick n sys.pending)) [
    | inl e ↦ rw (e, notify_section) v
    | inr (((id, uri), rest), e) ↦ rw (e, notify_section) v
  ]

  pub step-WellFormed : (e : Event) → sys.server.next_connection_id + 1 < 2 ^ 32 → Kept e
  unfolding step stop_section add_uri remove_uri
  step-WellFormed (starts acceptor bound cbs) room = starts-Kept acceptor bound cbs
  step-WellFormed stops room = stop_locked-WellFormed sys.server v
  step-WellFormed shuts_down room = shuts_down-Kept
  step-WellFormed takes_id room = take_connection_id-WellFormed sys.server v room
  step-WellFormed (registers session target is_ssl) room = registers-Kept session target is_ssl room
  step-WellFormed (closes id) room = closes-Kept id
  step-WellFormed (removes id) room = removes-Kept id
  step-WellFormed (notifies n) room = notifies-Kept n
  step-WellFormed (adds_uri uri cbs) room = flags-WellFormed sys.server v sys.server.shutdown _
  step-WellFormed (removes_uri uri) room = flags-WellFormed sys.server v sys.server.shutdown _
