-- ===== src/Server/Lifecycle/Abstract/Refines.antt =====
-- The sections of `CWebsocketServer::CImpl`, one by one, against what the abstract server does.
use websockets.Prelude.{
  ℕ, ◌+◌, ◌^◌, ◌<◌, ◌≡◌, ◌≢◌, refl, ap, ◌∙◌, Bool, false, not, ◌||◌, Option, none, some, List, [],
  ◌++◌, arith, Bool-cases, Option-cases, inl, inr, append-nil,
}
use websockets.Text.{Text}
use websockets.Assoc.{Assoc, lookup, insert, erase, nat_key, text_key}
use websockets.Assoc.Laws.{insert_fresh}
use websockets.Target.{target_path}
use websockets.Server.{
  Server, ClientCallbacks, UriCallbacks, ClientEntry, Call, added, closed, connection_change,
}
use websockets.Server.Routing.{longest_uri_match, append_base}
use websockets.Server.Clients.{
  post_if, change_handler, uri_count, incremented, decrement_uri_count, register_locked,
  register_ws_client, release_client, on_ws_closed, notify_closed_sync, stop_locked, start,
  start_locked, is_some, next_id, add_uri, remove_uri, take_connection_id,
}
use websockets.Server.Clients.Counts.{num_at, decrement_uri_count_lem, count_client_lem}
use websockets.Server.Clients.Invariant.{
  fresh, succ_id, new_entry, register-counted, WellFormed, release_client-WellFormed,
}
use websockets.Server.Lifecycle.{
  System, Event, starts, stops, shuts_down, takes_id, registers, closes, removes, notifies,
  adds_uri, removes_uri, pick, act, stop_section, remove_section, notify_section, shut_down_section,
  step,
}
use websockets.Server.Lifecycle.Abstract.{call_if, tell_uri, admit, says, perform}
use websockets.Server.Lifecycle.Abstract.View.{view, calls_of-posts, calls_of-invokes, same_change}

module _ (sys : System) (v : WellFormed sys.server) where
  abbrev Same : Event → Type 0
  Same e = view (step sys e) ≡ perform (view sys) e

  -- A section that chooses no call.
  view-act_quiet : (s : Server) → view (act sys s []) ≡ view (record sys { server = s })
  view-act_quiet s =
      ap (λ calls. record (view (record sys { server = s })) { chosen = calls })
        (append-nil sys.chosen)

  stops-Same : Same stops
  unfolding step perform stop_section stop_locked
  stops-Same = refl

  shuts_down-Same : Same shuts_down
  unfolding step perform shut_down_section stop_section stop_locked
  shuts_down-Same = ground arith

  starts-Same :
      (acceptor : ℕ) (bound : Option ℕ) (cbs : ClientCallbacks) → Same (starts acceptor bound cbs)
  unfolding step perform start start_locked
  starts-Same acceptor none cbs = ground arith
  starts-Same acceptor (some port) cbs = elim (Bool-cases sys.server.shutdown) [
    | inl e ↦ rw (e, start)
    | inr e ↦ elim (Bool-cases (is_some sys.server.acceptor)) [
      | inl a ↦ rw (e, start, a) (ap (λ b. record (view sys) { has_ended = false; listens = b }) a)
      | inr a ↦
          let after = view (record sys { server = start_locked sys.server acceptor port cbs }) in
          rw (e, start, a)
            (ap (λ calls. record after { has_ended = false; chosen = calls })
              (append-nil sys.chosen))
    ]
  ]

  told_end :
      (s : Server) (id : ℕ) (uri : Text) (n : ℕ)
      → (uri ≢ [] → n ≡ num_at uri s.clients)
      → call_if s.client_cbs.on_client_closed (λ h. closed h id)
          ++ call_if (change_handler s.uris uri) (λ h. connection_change h n)
        ≡ call_if s.client_cbs.on_client_closed (λ h. closed h id)
          ++ call_if (change_handler s.uris uri) (λ h. connection_change h (num_at uri s.clients))
  told_end s id uri n same =
      ap (λ l. call_if s.client_cbs.on_client_closed (λ h. closed h id) ++ l)
        (same_change s.uris uri n (num_at uri s.clients) same)

  notifies-Same : (n : ℕ) → Same (notifies n)
  unfolding step perform notify_section notify_closed_sync
  notifies-Same n = elim (Option-cases (pick n sys.pending)) [
    | inl e ↦ rw (e, notify_section, perform)
    | inr (((id, uri), rest), e) ↦
        let s = sys.server in
        rw (e, notify_section, perform)
          (ap (λ calls. record (view sys) { pending = rest; chosen = sys.chosen ++ calls })
            (calls_of-invokes _ _ _ _
              ∙ told_end s id uri (uri_count s.uri_counts uri) (v.counted uri)))
  ]

  -- The count after a client has left.
  left_count :
      (id : ℕ) (entry : ClientEntry)
      → lookup id sys.server.clients ≡ some entry
      → entry.uri ≢ []
      → (decrement_uri_count entry.uri sys.server.uri_counts).1
        ≡ num_at entry.uri (erase id sys.server.clients)
  unfolding release_client
  left_count id entry e u =
      decrement_uri_count_lem entry.uri sys.server.uri_counts u
      ∙ (release_client-WellFormed sys.server v id entry e).counted entry.uri u

  closes-Same : (id : ℕ) → Same (closes id)
  unfolding step perform on_ws_closed release_client
  closes-Same id = elim (Option-cases (lookup id sys.server.clients)) [
    | inl e ↦ rw (e, on_ws_closed, perform) (view-act_quiet sys.server)
    | inr (entry, e) ↦
        let s = release_client sys.server id entry in
        let gone = record (view sys) { clients = erase id sys.server.clients } in
        rw (e, on_ws_closed, perform)
          (ap (λ calls. record gone { chosen = sys.chosen ++ calls })
            (calls_of-posts _ _ _ _ ∙ told_end s id entry.uri _ (left_count id entry e)))
  ]

  removes-Same : (id : ℕ) → Same (removes id)
  unfolding step perform remove_section release_client
  removes-Same id = elim (Option-cases (lookup id sys.server.clients)) [
    | inl e ↦ rw (e, remove_section, perform)
    | inr (entry, e) ↦ rw (e, remove_section, perform)
  ]

  -- A client is entered, with the uri that was matched and the text that is told.
  enters-Same :
      (session : ℕ) (matched append : Text) (is_ssl : Bool)
      → sys.server.next_connection_id + 1 < 2 ^ 32
      → let s = sys.server in
        let r = admit (view sys) session matched is_ssl in
        view (
          act sys (register_locked s session matched is_ssl) (
            post_if s.client_cbs.on_client_added (λ h. added h s.next_connection_id append is_ssl)
            ++ post_if
                (change_handler s.uris matched)
                (λ h. connection_change h (incremented s.uri_counts matched))))
        ≡ says r (
            call_if s.client_cbs.on_client_added (λ h. added h s.next_connection_id append is_ssl)
            ++ tell_uri r matched)
  unfolding register_locked
  enters-Same session matched append is_ssl room =
      let s = sys.server in
      let entry = new_entry s v session matched is_ssl in
      let later = λ (n : ℕ) (m : Assoc ℕ ClientEntry) (calls : List Call). record (view sys) {
        next_id = n;
        clients = m;
        chosen = sys.chosen ++ calls;
      } in
      let admitted = insert_fresh s.next_connection_id entry s.clients (fresh s v) in
      let added_call =
        call_if s.client_cbs.on_client_added (λ h. added h s.next_connection_id append is_ssl) in
      let count = λ (u : matched ≢ []).
        count_client_lem matched s.uri_counts u
        ∙ (register-counted s v session matched is_ssl matched u ∙ ap (num_at matched) admitted) in
      let told = added_call ++ tell_uri (admit (view sys) session matched is_ssl) matched in
      let stored = insert s.next_connection_id entry s.clients in
      ap (λ calls. later (next_id s.next_connection_id) stored calls)
        (calls_of-posts _ _ _ _ ∙ ap (λ l. added_call ++ l) (same_change s.uris matched _ _ count))
      ∙ (ap (λ n. later n stored told) (succ_id s v room)
          ∙ ap (λ m. later (s.next_connection_id + 1) m told) admitted)

  registers-Same :
      (session : ℕ) (target : Text) (is_ssl : Bool)
      → sys.server.next_connection_id + 1 < 2 ^ 32
      → Same (registers session target is_ssl)
  unfolding step perform register_ws_client register_locked append_base
  registers-Same session target is_ssl room =
      elim (Bool-cases (sys.server.shutdown || not (is_some sys.server.acceptor))) [
        | inl e ↦ rw (e, register_ws_client) (view-act_quiet sys.server)
        | inr e ↦
            rw (e, register_ws_client)
              (enters-Same session (longest_uri_match sys.server.uris (target_path target)) _ is_ssl
                room)
      ]

  takes_id-Same : sys.server.next_connection_id + 1 < 2 ^ 32 → Same takes_id
  unfolding step perform take_connection_id
  takes_id-Same room =
      view-act_quiet (take_connection_id sys.server).0
      ∙ ap (λ n. record (view sys) { next_id = n }) (omega arith)

  uris-Same : (uri : Text) (cbs : UriCallbacks) → Same (adds_uri uri cbs) × Same (removes_uri uri)
  unfolding step perform add_uri remove_uri
  uris-Same uri cbs =
      (view-act_quiet (add_uri sys.server uri cbs), view-act_quiet (remove_uri sys.server uri))

  -- One event, as the abstract server performs it.
  pub view-step :
      (e : Event)
      → sys.server.next_connection_id + 1 < 2 ^ 32
      → view (step sys e) ≡ perform (view sys) e
  view-step (starts acceptor bound cbs) room = starts-Same acceptor bound cbs
  view-step stops room = stops-Same
  view-step shuts_down room = shuts_down-Same
  view-step takes_id room = takes_id-Same room
  view-step (registers session target is_ssl) room = registers-Same session target is_ssl room
  view-step (closes id) room = closes-Same id
  view-step (removes id) room = removes-Same id
  view-step (notifies n) room = notifies-Same n
  view-step (adds_uri uri cbs) room = (uris-Same uri cbs).0
  view-step (removes_uri uri) room = (uris-Same uri default_callbacks).1
    where
      default_callbacks : UriCallbacks
      default_callbacks = record {
        on_connection_change = none;
        on_client_message_received = none;
        on_client_content_received = none;
        on_request_received = none;
      }
