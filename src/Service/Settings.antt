-- ===== src/Service/Settings.antt =====
-- The settings of a server stay those that it was made with, and its uris change only by `AddUri`
-- and `RemoveUri`.
use websockets.Prelude.{
  ap, Whenever, ℕ, ◌≡◌, refl, ◌∙◌, Bool, Option, none, some, List, [], ◌∷◌, arith, inl, inr,
  Option-cases,
}
use websockets.Text.{Text}
use websockets.Assoc.{Assoc, lookup, insert, erase, nat_key, text_key}
use websockets.Server.{ClientCallbacks, UriCallbacks, Server, ServerSettings}
use websockets.Server.Clients.{
  register_ws_client, on_ws_closed, remove_client, release_client, stop, stop_locked, shut_down,
  start, start_locked, add_uri, remove_uri, take_connection_id,
}
use websockets.Server.Lifecycle.{pick}
use websockets.Session.Strand.{Strand, fire}
use websockets.Session.Strand.Face.{ends, news}
use websockets.Service.{
  World, Event, Post, handler_of, hear, ran, after_start, step, accepted, refused, acts, delivers,
  starts, stops, shuts_down, takes_id, removes, sends_to, broadcasts, adds_uri, removes_uri,
}

abbrev pub fixed : Server → ServerSettings × Assoc Text UriCallbacks
fixed s = (s.settings, s.uris)

-- The uris after an event.
abbrev pub uris_after : Event → Assoc Text UriCallbacks → Assoc Text UriCallbacks
uris_after (adds_uri uri cbs) uris = insert uri cbs uris
uris_after (removes_uri uri) uris = erase uri uris
uris_after _ uris = uris

module _ (s : Server) where
  register-fixed :
      (k : ℕ) (target : Text) (ssl : Bool) → fixed (register_ws_client s k target ssl).0 ≡ fixed s
  unfolding register_ws_client
  register-fixed k target ssl = ground arith

  closed-fixed : (id : ℕ) → fixed (on_ws_closed s id).0 ≡ fixed s
  unfolding on_ws_closed release_client
  closed-fixed id = elim (Option-cases (lookup id s.clients)) [
    | inl e ↦ rw (e, on_ws_closed) refl
    | inr (entry, e) ↦ rw (e, on_ws_closed) refl
  ]

  remove-fixed : (id : ℕ) → fixed (remove_client s id).0 ≡ fixed s
  unfolding remove_client release_client
  remove-fixed id = elim (Option-cases (lookup id s.clients)) [
    | inl e ↦ rw (e, remove_client) refl
    | inr (entry, e) ↦ rw (e, remove_client) refl
  ]

  pub take-fixed : fixed (take_connection_id s).0 ≡ fixed s
  unfolding take_connection_id
  take-fixed = refl

  shut_down-fixed : fixed (shut_down s).0 ≡ fixed s
  unfolding shut_down stop stop_locked
  shut_down-fixed = ground arith

hear-fixed : (ids : List ℕ) (s : Server) → fixed (hear s ids) ≡ fixed s
hear-fixed [] s = refl
hear-fixed (id ∷ ids) s = hear-fixed ids (on_ws_closed s id).0 ∙ closed-fixed s id

-- A state with the settings and the uris of another.
abbrev pub Like : Server → World → Type 0
Like s v = fixed v.server ≡ fixed s

ran-fixed :
    (s : Server) (w : World) (k : ℕ) (o : Option Strand) → Like s w → Whenever (Like s) (ran w k o)
ran-fixed s w k none h = tt
ran-fixed s w k (some u) h = hear-fixed (ends (news (w.sessions k) u)) w.server ∙ h

start-fixed :
    (w : World) (bound : Option ℕ) (acceptor : ℕ) (cbs : ClientCallbacks)
    → Like w.server (after_start w (start w.server acceptor bound cbs))
unfolding start start_locked
start-fixed w none acceptor cbs = ground arith
start-fixed w (some port) acceptor cbs = ground arith

pub step-fixed :
    (w : World) (e : Event)
    → Whenever (Like (record w.server { uris = uris_after e w.server.uris })) (step w e)
unfolding step stop stop_locked take_connection_id add_uri remove_uri
step-fixed w (accepted k) =
    let t = w.sessions k in
    let r = register_ws_client w.server k t.session.target t.session.is_ssl in
    ran-fixed w.server (record w { server = r.0 }) k _
      (register-fixed w.server k t.session.target t.session.is_ssl)
step-fixed w (refused k ec) = ran-fixed w.server w k _ refl
step-fixed w (acts k e) = ran-fixed w.server w k _ refl
step-fixed w (delivers n) = delivered (pick n w.inbox)
  where
    delivered :
        (o : Option ((ℕ × Post) × List (ℕ × Post)))
        → Whenever (Like w.server) (elim o as (λ _. Option World) [
          | none ↦ some w
          | some ((k, p), rest) ↦
              ran (record w { inbox = rest }) k (fire (w.sessions k) (handler_of p))
        ])
    delivered none = refl
    delivered (some ((k, p), rest)) =
        ran-fixed w.server (record w { inbox = rest }) k (fire (w.sessions k) (handler_of p)) refl
step-fixed w (starts acceptor bound cbs) = start-fixed w bound acceptor cbs
step-fixed w stops = refl
step-fixed w shuts_down = shut_down-fixed w.server
step-fixed w takes_id = refl
step-fixed w (removes id) = remove-fixed w.server id
step-fixed w (sends_to id payload) = refl
step-fixed w (broadcasts uri payload) = refl
step-fixed w (adds_uri uri cbs) = refl
step-fixed w (removes_uri uri) = refl

pub step-settings :
    (settings : ServerSettings) (w : World) (e : Event)
    → w.server.settings ≡ settings
    → Whenever (λ v. v.server.settings ≡ settings) (step w e)
step-settings settings w e has = go (step w e) (step-fixed w e)
  where
    go :
        (o : Option World)
        → Whenever (Like (record w.server { uris = uris_after e w.server.uris })) o
        → Whenever (λ v. v.server.settings ≡ settings) o
    go none f = tt
    go (some v) f = ap (λ (q : ServerSettings × Assoc Text UriCallbacks). q.0) f ∙ has
