-- ===== src/Gateway.antt =====
-- From a socket to a client (src/CWebsocketServer.cpp): the accept loop and the ssl detection make
-- http connections, of which some hand their stream to a websocket session, which registers itself
-- at the server. A socket, its connection and its session have the same number.
pub mod Frames
pub mod Stand
pub mod Steps
pub mod Safety
mod Tests
use websockets.Prelude.{ℕ, ◌+◌, ◌^◌, ◌<◌, ◌≡◌, Bool, true, false, Option, none, some, List, [], ◌∷◌}
use websockets.Server.{Server, ServerSettings, new_server}
use websockets.Accept as Accept
use websockets.Accept.{
  on_async_accept, on_detect, async_accept, log_accept, async_detect_ssl, run_connection,
}
use websockets.Http.Connection.{ErrorCode, HttpRequest, Action, accept_session, run, on_read}
use websockets.Http.Connection.Upgrade.{session_made}
use websockets.Http.Cycle.{Conn, fire, new_conn, start_actions, read_done}
use websockets.Http.Cycle as Cycle
use websockets.Session.Strand.{Strand, new_strand}
use websockets.Service.{World, set}
use websockets.Service as Service

pub data Stage : Type 0 where
  -- the socket is still to come; its detection is outstanding
  free detecting : Stage
  -- `CHttpConnection` has the stream
  talking : Conn → Stage
  -- `CWsSession` has it
  upgraded : Stage
  dropped : Stage

pub record Gate : Type 0 where
  pub world : World
  pub stages : ℕ → Stage

pub data Event : Type 0 where
  accepts : ℕ → Accept.ErrorCode → Event
  detects : ℕ → Accept.ErrorCode → Bool → Event
  -- a read of an http connection completes; another event of it
  reads : ℕ → ErrorCode → HttpRequest → Event
  talks : ℕ → Cycle.Event → Event
  -- an event of the server and its sessions
  serves : Service.Event → Event

-- What the accept handler or the detection makes of the socket.
abbrev pub staged : List Accept.Action → Option Stage
staged [] = some dropped
staged (async_accept ∷ rest) = staged rest
staged (log_accept ∷ rest) = staged rest
staged (async_detect_ssl expiry ∷ rest) = some detecting
staged (run_connection ssl ∷ rest) = elim (start_actions (new_conn ssl) (run ssl)) [
  | none ↦ none
  | some c ↦ some (talking c)
]

abbrev pub place : Gate → ℕ → Option Stage → Option Gate
place g k none = none
place g k (some stage) = some (record g { stages = set g.stages k stage })

abbrev pub or_gone : Server → Option Server → Server
or_gone s none = s
or_gone s (some s') = s'

-- The connection goes on, or its stream moves to a new session.
abbrev pub hand_over : Gate → ℕ → Conn → Option HttpRequest → Gate
hand_over g k c none = record g { stages = set g.stages k (talking c) }
hand_over g k c (some request) = record g {
  world = record g.world {
    sessions =
        set g.world.sessions k
          (new_strand g.world.server.settings.max_session_backlog c.ssl request.target);
  };
  stages = set g.stages k upgraded;
}

abbrev pub has_read : Gate → ℕ → Option Conn → Option Server × List Action → Option Gate
has_read g k none r = none
has_read g k (some c) (s, actions) =
    let served = record g { world = record g.world { server = or_gone g.world.server s } } in
    some (hand_over served k c (session_made actions))

abbrev pub has_acceptor : Server → Bool
has_acceptor s = elim s.acceptor [ none ↦ false | some a ↦ true ]

abbrev pub go_on : Gate → ℕ → Option Conn → Option Gate
go_on g k none = none
go_on g k (some c) = some (record g { stages = set g.stages k (talking c) })

-- One event at the stage of its socket; `none` is undefined behaviour, or two operations at once on
-- a stream.
abbrev pub read_at : Gate → ℕ → Stage → ErrorCode → HttpRequest → Option Gate
read_at g k (talking c) ec request =
    let s = some g.world.server in
    has_read g k (fire c (read_done s ec request)) (on_read s ec request)
read_at g k _ ec request = none

abbrev pub talk_at : Gate → ℕ → Stage → Cycle.Event → Option Gate
talk_at g k (talking c) e = go_on g k (fire c e)
talk_at g k _ e = none

abbrev pub serve_with : Gate → Option World → Option Gate
serve_with g none = none
serve_with g (some w) = some (record g { world = w })

pub step : Gate → Event → Option Gate
step g (accepts k ec) =
    let s = g.world.server in
    place g k (staged (on_async_accept s.settings true (has_acceptor s) ec))
step g (detects k ec ssl) = place g k (staged (on_detect ec ssl))
step g (reads k ec request) = read_at g k (g.stages k) ec request
step g (talks k e) = talk_at g k (g.stages k) e
step g (serves e) = serve_with g (Service.step g.world e)

abbrev pub is_read : Cycle.Event → Bool
is_read (read_done s ec request) = true
is_read _ = false

-- What may happen. The ids of connections are left.
abbrev pub Enabled : Gate → Event → Type 0
Enabled g (accepts k ec) = g.stages k ≡ free
Enabled g (detects k ec ssl) = g.stages k ≡ detecting
Enabled g (reads k ec request) =
    (c : Conn) × (g.stages k ≡ talking c)
    × ((c.terminated ≡ false) × (c.reading ≡ true))
    × (g.world.server.next_connection_id + 1 < 2 ^ 32)
Enabled g (talks k e) =
    (c : Conn) × (g.stages k ≡ talking c) × (is_read e ≡ false) × Cycle.Enabled c e
Enabled g (serves e) = Service.Enabled g.world e

-- A place for a session that has not been made.
abbrev pub unmade : Strand
unmade = record (new_strand 0 false []) { accepting = false }

-- A new server to which nobody has connected.
pub record IsNew (settings : ServerSettings) (g : Gate) : Type 0 where
  pub server_is_new : g.world.server ≡ new_server settings
  pub nothing_made : g.world.sessions ≡ (λ k. unmade)
  pub nothing_posted : g.world.inbox ≡ []
  pub nothing_accepted : g.stages ≡ (λ k. free)

pub data Reach (settings : ServerSettings) : Gate → Type 0 where
  here : {g : Gate} → IsNew settings g → Reach settings g
  next :
      {g h : Gate} (e : Event)
      → Reach settings g
      → Enabled g e
      → step g e ≡ some h
      → Reach settings h
