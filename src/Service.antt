-- ===== src/Service.antt =====
-- The server with its websocket sessions (src/CWebsocketServer.cpp): `CWsSession` registers itself
-- at `CImpl` and reports its end there; `CImpl` posts payloads and closes to the strands of the
-- sessions. Sessions are numbered. What is posted waits in one inbox, of which any part may be
-- delivered next.
pub mod Links
pub mod Sound
pub mod Steps
pub mod Runs
pub mod Simulation
pub mod Settings
pub mod Lineage
pub mod Order
pub mod Heard
mod Tests
use websockets.Prelude.{
  ℕ, ◌+◌, ◌^◌, ◌<◌, ◌≡◌, Bool, true, false, Option, none, some, List, [], ◌∷◌, ◌++◌, ◌==◌,
  if◌then◌else◌,
}
use websockets.Text.{Text}
use websockets.Payload.{Payload}
use websockets.Server.{
  Server, ClientCallbacks, UriCallbacks, Effect, post, invoke, close_session, close_acceptor,
  accept_next, stop_work_queue, log_not_connected,
}
use websockets.Server.Clients.{
  register_ws_client, on_ws_closed, remove_client, stop, shut_down, StartResult, started, failed,
  start, add_uri, remove_uri, take_connection_id,
}
use websockets.Server.Sends.{send_to_client, broadcast}
use websockets.Server.Lifecycle.{pick}
use websockets.Session.{ErrorCode, success, fails}
use websockets.Session.Strand.{Strand, accept_done, fire}
use websockets.Session.Strand as Strand
use websockets.Session.Strand.Face.{ends, news, is_internal}

-- What the server posts to a session's strand: the handlers of `Send` and of `Close`.
pub data Post : Type 0 where
  sends : Payload → Post
  closes : Post

pub record World : Type 0 where
  pub server : Server
  pub sessions : ℕ → Strand
  pub inbox : List (ℕ × Post)

pub data Event : Type 0 where
  -- a session's accept completes; another of its operations does
  accepted : ℕ → Event
  refused : ℕ → ErrorCode → Event
  acts : ℕ → Strand.Event → Event
  -- one of the posts runs
  delivers : ℕ → Event
  -- a call of the user
  starts : ℕ → Option ℕ → ClientCallbacks → Event
  stops shuts_down takes_id : Event
  removes : ℕ → Event
  sends_to : ℕ → Payload → Event
  broadcasts : Option Text → Payload → Event
  adds_uri : Text → UriCallbacks → Event
  removes_uri : Text → Event

abbrev pub set : {A : Type 0} → (ℕ → A) → ℕ → A → ℕ → A
set f k x j = if j == k then x else f j

abbrev pub posts_of : List Effect → List (ℕ × Post)
posts_of [] = []
posts_of (close_session k ∷ rest) = (k, closes) ∷ posts_of rest
posts_of (Effect.send k payload ∷ rest) = (k, sends payload) ∷ posts_of rest
posts_of (_ ∷ rest) = posts_of rest

abbrev pub handler_of : Post → Strand.Event
handler_of (sends payload) = Strand.send payload
handler_of closes = Strand.close

-- `OnWsClosed` for the ends that a session has reported.
abbrev pub hear : Server → List ℕ → Server
hear s [] = s
hear s (id ∷ ids) = hear (on_ws_closed s id).0 ids

-- A handler of a session has run.
abbrev pub ran : World → ℕ → Option Strand → Option World
ran w k none = none
ran w k (some u) = some (record w {
  server = hear w.server (ends (news (w.sessions k) u));
  sessions = set w.sessions k u;
})

abbrev pub after : World → Server × List Effect → World
after w (s, effects) = record w { server = s; inbox = w.inbox ++ posts_of effects }

abbrev pub after_start : World → StartResult → World
after_start w (started s effects) = after w (s, effects)
after_start w (failed e) = w

-- One event; `none` is undefined behaviour in a session, or two operations at once on its stream.
unfoldable pub step : World → Event → Option World
unfolding register_ws_client on_ws_closed remove_client stop shut_down start add_uri remove_uri
    take_connection_id send_to_client broadcast
step w (accepted k) =
    let t = w.sessions k in
    let (s, id, effects) = register_ws_client w.server k t.session.target t.session.is_ssl in
    ran (record w { server = s }) k (fire t (accept_done success (some id)))
step w (refused k ec) = ran w k (fire (w.sessions k) (accept_done ec (some 0)))
step w (acts k e) = ran w k (fire (w.sessions k) e)
step w (delivers n) = elim (pick n w.inbox) [
  | none ↦ some w
  | some ((k, p), rest) ↦ ran (record w { inbox = rest }) k (fire (w.sessions k) (handler_of p))
]
step w (starts acceptor bound cbs) = some (after_start w (start w.server acceptor bound cbs))
step w stops = some (after w (stop w.server))
step w shuts_down = some (after w (shut_down w.server))
step w takes_id = some (record w { server = (take_connection_id w.server).0 })
step w (removes id) = some (after w (remove_client w.server id))
step w (sends_to id payload) = some (after w (w.server, send_to_client w.server id payload))
step w (broadcasts uri payload) = some (after w (w.server, broadcast w.server uri payload))
step w (adds_uri uri cbs) = some (record w { server = add_uri w.server uri cbs })
step w (removes_uri uri) = some (record w { server = remove_uri w.server uri })

-- What may happen: what Beast may complete, and the calls of the user; ids are left.
abbrev pub Enabled : World → Event → Type 0
Enabled w (accepted k) =
    ((w.sessions k).accepting ≡ true) × (w.server.next_connection_id + 1 < 2 ^ 32)
Enabled w (refused k ec) = ((w.sessions k).accepting ≡ true) × (fails ec ≡ true)
Enabled w (acts k e) = (is_internal e ≡ true) × Strand.Enabled (w.sessions k) e
Enabled w takes_id = w.server.next_connection_id + 1 < 2 ^ 32
Enabled w _ = Unit

-- A new server with sessions that wait for their accept.
pub record IsNew (w : World) : Type 0 where
  pub settings : websockets.Server.ServerSettings
  pub server_is_new : w.server ≡ websockets.Server.new_server settings
  pub ssl : ℕ → Bool
  pub target : ℕ → Text
  pub sessions_are_new :
      w.sessions ≡ (λ k. Strand.new_strand settings.max_session_backlog (ssl k) (target k))
  pub nothing_posted : w.inbox ≡ []

pub data Reach : World → Type 0 where
  here : {w : World} → IsNew w → Reach w
  next : {w v : World} (e : Event) → Reach w → Enabled w e → step w e ≡ some v → Reach v
