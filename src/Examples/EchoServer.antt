-- ===== src/Examples/EchoServer.antt =====
-- examples/echo_server.cpp: a server that sends back what its clients send, and answers requests
-- within /api. The program's arguments are those after its name.
pub mod Status
pub mod Runs
pub mod Posted
pub mod Waiting
pub mod Echo
pub mod Answer
use websockets.Prelude.{ℕ, ◌%◌, ◌^◌, Bool, Option, none, some, List, [], ◌∷◌, ◌++◌, length}
use websockets.Text.{Text, codes}
use websockets.Payload.{Payload, text, content}
use websockets.Server.{
  Server, ClientCallbacks, UriCallbacks, Call, added, closed, connection_change, message, received,
  Effect,
}
use websockets.Server.Clients.{StartResult, started, failed, add_uri, stop}
use websockets.Server.Api.{construct, destroy, start_on_port}
use websockets.Http.{HttpMsg}
use websockets.Http.Wrapper.{Use, touches, edits, replies}
use websockets.Examples.{Output, words, number, flag, stoul}

-- The four callbacks for clients and the one for requests.
abbrev pub callbacks : ClientCallbacks
callbacks = record {
  on_client_added = some 0;
  on_client_closed = some 1;
  on_client_message_received = some 2;
  on_client_content_received = some 3;
}

abbrev pub api_callbacks : UriCallbacks
api_callbacks = record {
  on_connection_change = none;
  on_client_message_received = none;
  on_client_content_received = none;
  on_request_received = some 4;
}

-- What a callback of the program prints.
pub prints : Call → List Output
prints (added h id append is_ssl) =
    words (codes "client ")
    ∷ number id
    ∷ words (codes " connected (uri append '")
    ∷ words append
    ∷ words (codes "', ssl ")
    ∷ flag is_ssl
    ∷ words (codes ")\n")
    ∷ []
prints (closed h id) = words (codes "client ") ∷ number id ∷ words (codes " disconnected\n") ∷ []
prints (message h id m) =
    words (codes "client ")
    ∷ number id
    ∷ words (codes " says: ")
    ∷ words m
    ∷ words (codes "\n")
    ∷ []
prints (received h id bytes) =
    words (codes "client ")
    ∷ number id
    ∷ words (codes " sent ")
    ∷ number (length bytes)
    ∷ words (codes " bytes\n")
    ∷ []
prints (connection_change h n) = []

-- What it then sends: `SendMessage` or `SendContent` to a client.
unfoldable pub sends_back : Call → Option (ℕ × Payload)
sends_back (message h id m) = some (id, text m)
sends_back (received h id bytes) = some (id, content bytes)
sends_back _ = none

abbrev pub status_body : Text
status_body = codes "{\"status\": \"ok\"}"

-- The callback for requests.
pub answers : List Use
answers = touches (edits (λ msg. record msg { body = status_body })) ∷ replies ∷ []

abbrev cut : Option ℕ → Option ℕ
cut none = none
cut (some n) = some (n % 2 ^ 16)

-- The port, as an unsigned short.
port_of : List Text → Option ℕ
unfolding stoul
port_of [] = some 8080
port_of (arg ∷ rest) = cut (stoul arg)

-- The server before `Start`.
pub prepared : Server
unfolding add_uri
prepared = add_uri (construct none) (codes "/api") api_callbacks

-- `main` up to the wait for the signal: an exception of `stoul` that nobody catches, a return
-- code, or a server that listens.
pub data Launch : Type 0 where
  terminates : Launch
  returns : ℕ → List Output → Launch
  listens : Server → List Effect → List Output → Launch

abbrev started_up : ℕ → StartResult → Launch
started_up port (failed e) = returns 1 (words (codes "failed to start on port ") ∷ number port ∷ [])
started_up port (started s effects) =
    listens s effects (
      words (codes "listening on port ") ∷ number s.port ∷ words (codes " (ctrl-c to stop)\n") ∷ [])

-- `bind` opens, binds and listens.
pub launch : (Text → ℕ → Option ℕ) → ℕ → List Text → Launch
unfolding start_on_port prepared port_of
launch bind acceptor args = elim (port_of args) [
  | none ↦ terminates
  | some port ↦ started_up port (start_on_port bind prepared acceptor port callbacks)
]

abbrev then_do : Server × List Effect → (Server → Server × List Effect) → Server × List Effect
then_do (s, effects) f = let (s', more) = f s in (s', effects ++ more)

-- `main` after the signal, with the destructor of the server.
pub finish : Server → Server × List Effect
unfolding stop destroy
finish s = then_do (stop s) destroy
