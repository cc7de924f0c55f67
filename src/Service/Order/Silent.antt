-- ===== src/Service/Order/Silent.antt =====
-- Which events send nothing to the sessions.
use websockets.Prelude.{
  Whenever, ℕ, ◌≡◌, refl, ap, ◌∙◌, Bool, true, false, Option, none, some, List, [], ◌∷◌, ◌++◌,
  if◌then◌else◌, if_elim, length, drop, drop-append, drop-length, Option-cases, inl, inr,
}
use websockets.Text.{Text}
use websockets.Assoc.{Assoc, lookup, nat_key}
use websockets.Server.{
  ClientCallbacks, closed, connection_change, Server, ClientEntry, Effect, Handler, Call, post,
  send, close_session, close_acceptor, log_not_connected, invoke, stop_work_queue, accept_next,
}
use websockets.Server.Clients.{
  StartResult, started, failed, start, start_locked, stop, stop_locked, shut_down, remove_client,
  release_client, notify_closed_sync, notify_all, close_all, close_acceptor_of, invoke_if,
  change_handler, uri_count, register_ws_client, add_uri, remove_uri, take_connection_id,
}
use websockets.Server.Clients as Clients
use websockets.Session.Strand.{Strand}
use websockets.Service.{
  World, Event, ran, after, after_start, step, posts_of, accepted, refused, acts, delivers, starts,
  stops, shuts_down, takes_id, removes, sends_to, broadcasts, adds_uri, removes_uri,
}
use websockets.Service.Order.{sent_to, fresh_posts}

-- Effects without a send.
abbrev SendFree : List Effect → Type 0
SendFree [] = Unit
SendFree (send k p ∷ rest) = ⊥
SendFree (_ ∷ rest) = SendFree rest

SendFree-append : (xs ys : List Effect) → SendFree xs → SendFree ys → SendFree (xs ++ ys)
SendFree-append [] ys f g = g
SendFree-append (post c ∷ xs) ys f g = SendFree-append xs ys f g
SendFree-append (invoke c ∷ xs) ys f g = SendFree-append xs ys f g
SendFree-append (close_session k ∷ xs) ys f g = SendFree-append xs ys f g
SendFree-append (close_acceptor a ∷ xs) ys f g = SendFree-append xs ys f g
SendFree-append (accept_next a ∷ xs) ys f g = SendFree-append xs ys f g
SendFree-append (stop_work_queue ∷ xs) ys f g = SendFree-append xs ys f g
SendFree-append (log_not_connected id ∷ xs) ys f g = SendFree-append xs ys f g
SendFree-append (send k p ∷ xs) ys f g = absurd f

nothing_sent : (k : ℕ) (es : List Effect) → SendFree es → sent_to k (posts_of es) ≡ []
nothing_sent k [] f = refl
nothing_sent k (post c ∷ es) f = nothing_sent k es f
nothing_sent k (invoke c ∷ es) f = nothing_sent k es f
nothing_sent k (close_session j ∷ es) f = nothing_sent k es f
nothing_sent k (close_acceptor a ∷ es) f = nothing_sent k es f
nothing_sent k (accept_next a ∷ es) f = nothing_sent k es f
nothing_sent k (stop_work_queue ∷ es) f = nothing_sent k es f
nothing_sent k (log_not_connected id ∷ es) f = nothing_sent k es f
nothing_sent k (send j p ∷ es) f = absurd f

invoke_if-SendFree : (h : Handler) (call : ℕ → Call) → SendFree (invoke_if h call)
invoke_if-SendFree none call = tt
invoke_if-SendFree (some h) call = tt

notify-SendFree : (s : Server) (id : ℕ) (uri : Text) → SendFree (notify_closed_sync s id uri)
unfolding notify_closed_sync
notify-SendFree s id uri =
    let gone = λ (h : ℕ). closed h id in
    let change = λ (h : ℕ). connection_change h (uri_count s.uri_counts uri) in
    SendFree-append (invoke_if s.client_cbs.on_client_closed gone)
      (invoke_if (change_handler s.uris uri) change)
      (invoke_if-SendFree s.client_cbs.on_client_closed gone)
      (invoke_if-SendFree (change_handler s.uris uri) change)

notify_all-SendFree : (s : Server) (m : Assoc ℕ ClientEntry) → SendFree (notify_all s m)
notify_all-SendFree s [] = tt
notify_all-SendFree s ((id, entry) ∷ m) =
    SendFree-append (notify_closed_sync s id entry.uri) (notify_all s m)
      (notify-SendFree s id entry.uri) (notify_all-SendFree s m)

close_all-SendFree : (m : Assoc ℕ ClientEntry) → SendFree (close_all m)
close_all-SendFree [] = tt
close_all-SendFree ((id, entry) ∷ m) = close_all-SendFree m

acceptor-SendFree : (a : Option ℕ) → SendFree (close_acceptor_of a)
acceptor-SendFree none = tt
acceptor-SendFree (some a) = tt

module _ (s : Server) where
  stop-SendFree : SendFree (stop s).1
  unfolding stop
  stop-SendFree =
      let notices = notify_all (stop_locked s) s.clients in
      SendFree-append (close_acceptor_of s.acceptor) (close_all s.clients ++ notices)
        (acceptor-SendFree s.acceptor)
        (SendFree-append (close_all s.clients) notices (close_all-SendFree s.clients)
          (notify_all-SendFree (stop_locked s) s.clients))

  remove-SendFree : (id : ℕ) → SendFree (remove_client s id).1
  unfolding remove_client
  remove-SendFree id = elim (Option-cases (lookup id s.clients)) [
    | inl e ↦ rw (e, remove_client) tt
    | inr (entry, e) ↦
        rw (e, remove_client) (notify-SendFree (release_client s id entry) id entry.uri)
  ]

shut_down-SendFree : (s : Server) → SendFree (shut_down s).1
unfolding shut_down
shut_down-SendFree s =
    if_elim (λ (r : Server × List Effect). SendFree r.1) s.shutdown (λ _. tt)
      (λ _.
        let s' = record s { shutdown = true } in
        SendFree-append (stop s').1 (stop_work_queue ∷ []) (stop-SendFree s') tt)

-- `SendToClient` and `Broadcast`
abbrev pub is_send : Event → Bool
is_send (sends_to id payload) = true
is_send (broadcasts uri payload) = true
is_send _ = false

-- The event posts nothing that sends.
abbrev pub Silent : ℕ → Event → World → World → Type 0
Silent k e w v = sent_to k (fresh_posts e w v) ≡ []

module _ (k : ℕ) (w : World) where
  abbrev Mute : World → Type 0
  Mute v = sent_to k (drop (length w.inbox) v.inbox) ≡ []

  same_inbox : (v : World) → v.inbox ≡ w.inbox → Mute v
  same_inbox v same =
      ap (λ l. sent_to k (drop (length w.inbox) l)) same ∙ ap (sent_to k) (drop-length w.inbox)

  ran-Mute : (x : World) (j : ℕ) (o : Option Strand) → x.inbox ≡ w.inbox → Whenever Mute (ran x j o)
  ran-Mute x j none same = tt
  ran-Mute x j (some u) same =
      ap (λ l. sent_to k (drop (length w.inbox) l)) same ∙ ap (sent_to k) (drop-length w.inbox)

  after-Mute : (r : Server × List Effect) → SendFree r.1 → Mute (after w r)
  after-Mute r f = ap (sent_to k) (drop-append w.inbox (posts_of r.1)) ∙ nothing_sent k r.1 f

  start-Mute :
      (bound : Option ℕ) (acceptor : ℕ) (cbs : ClientCallbacks)
      → Mute (after_start w (start w.server acceptor bound cbs))
  unfolding start
  start-Mute bound acceptor cbs =
      if_elim (λ r. Mute (after_start w r)) w.server.shutdown (λ _. same_inbox w refl)
        (λ _. opened bound)
    where
      opened :
          (bound : Option ℕ)
          → Mute (
              after_start w (elim bound as (λ _. StartResult) [
                | none ↦ failed Clients.cannot_listen
                | some port ↦
                    if Clients.is_some w.server.acceptor
                    then failed Clients.already_started
                    else started
                        (start_locked w.server acceptor port cbs)
                        (accept_next acceptor ∷ [])
              ]))
      opened none = same_inbox w refl
      opened (some port) =
          if_elim (λ r. Mute (after_start w r)) (Clients.is_some w.server.acceptor)
            (λ _. same_inbox w refl)
            (λ _.
              after-Mute (start_locked w.server acceptor port cbs, accept_next acceptor ∷ []) tt)

  pub step-Silent : (e : Event) → is_send e ≡ false → Whenever (Silent k e w) (step w e)
  unfolding step add_uri remove_uri take_connection_id
  step-Silent (accepted j) quiet =
      let t = w.sessions j in
      let r = register_ws_client w.server j t.session.target t.session.is_ssl in
      ran-Mute (record w { server = r.0 }) j _ refl
  step-Silent (refused j ec) quiet = ran-Mute w j _ refl
  step-Silent (acts j e) quiet = ran-Mute w j _ refl
  step-Silent (delivers n) quiet = all_silent (step w (delivers n))
    where
      all_silent : (o : Option World) → Whenever (λ v. sent_to k [] ≡ []) o
      all_silent none = tt
      all_silent (some v) = refl
  step-Silent (starts acceptor bound cbs) quiet = start-Mute bound acceptor cbs
  step-Silent stops quiet = after-Mute (stop w.server) (stop-SendFree w.server)
  step-Silent shuts_down quiet = after-Mute (shut_down w.server) (shut_down-SendFree w.server)
  step-Silent takes_id quiet = ap (sent_to k) (drop-length w.inbox)
  step-Silent (removes id) quiet =
      after-Mute (remove_client w.server id) (remove-SendFree w.server id)
  step-Silent (sends_to id payload) quiet = cc
  step-Silent (broadcasts uri payload) quiet = cc
  step-Silent (adds_uri uri cbs) quiet = ap (sent_to k) (drop-length w.inbox)
  step-Silent (removes_uri uri) quiet = ap (sent_to k) (drop-length w.inbox)
