-- ===== src/Server/Api.antt =====
-- The public class `CWebsocketServer` and its `CUriWrapper` (src/CWebsocketServer.cpp), which
-- forward to `CImpl`. A wrapper may hold no server; its operations then do nothing.
mod Wrappers
use websockets.Prelude.{
  ℕ, Bool, true, false, ◌&&◌, Option, none, some, List, [], ◌∷◌, if◌then◌else◌,
}
use websockets.Text.{Text, codes}
use websockets.Payload.{Payload, text, content}
use websockets.Server.{
  Server, ServerSettings, ClientCallbacks, UriCallbacks, Effect, default_settings, new_server,
  no_client_callbacks,
}
use websockets.Server.Clients.{StartResult, start, shut_down, add_uri, remove_uri}
use websockets.Server.Sends.{send_to_client, broadcast, any_clients, send_delayed}

-- The constructors.
abbrev pub construct : Option ServerSettings → Server
construct none = new_server default_settings
construct (some settings) = new_server settings

-- The destructor.
unfoldable pub destroy : Server → Server × List Effect
unfolding shut_down
destroy s = shut_down s

-- The overloads of `Start`. `bind` opens, binds and listens at an address and a port; it returns
-- the local port, or none for an error.
module _ (bind : Text → ℕ → Option ℕ) where
  unfoldable pub start_at : Server → ℕ → Text → ℕ → ClientCallbacks → StartResult
  unfolding start
  start_at s acceptor address port cbs = start s acceptor (bind address port) cbs

  unfoldable pub start_on_port : Server → ℕ → ℕ → ClientCallbacks → StartResult
  unfolding start_at
  start_on_port s acceptor port cbs = start_at s acceptor (codes "0.0.0.0") port cbs

  pub start_with : Server → ℕ → ClientCallbacks → StartResult
  unfolding start_at
  start_with s acceptor cbs = start_at s acceptor (codes "0.0.0.0") 8080 cbs

  pub start_default : Server → ℕ → StartResult
  unfolding start_at
  start_default s acceptor = start_at s acceptor (codes "0.0.0.0") 8080 no_client_callbacks

-- `SendContent` and `SendMessage` to a client, to all of them, and to those of a uri.
send_content_to : Server → ℕ → Text → List Effect
unfolding send_to_client
send_content_to s id bytes = send_to_client s id (content bytes)

send_content_all : Server → Text → List Effect
unfolding broadcast
send_content_all s bytes = broadcast s none (content bytes)

send_content_uri : Server → Text → Text → List Effect
unfolding broadcast
send_content_uri s uri bytes = broadcast s (some uri) (content bytes)

send_message_to : Server → ℕ → Text → List Effect
unfolding send_to_client
send_message_to s id message = send_to_client s id (text message)

send_message_all : Server → Text → List Effect
unfolding broadcast
send_message_all s message = broadcast s none (text message)

pub send_message_uri : Server → Text → Text → List Effect
unfolding broadcast
send_message_uri s uri message = broadcast s (some uri) (text message)

-- `ClientsConnected`
pub clients_connected : Server → Option Text → Bool
unfolding any_clients
clients_connected s uri = any_clients s uri

pub record UriWrapper : Type 0 where
  -- `mServer` is set
  pub has_server : Bool
  pub uri : Text

-- The constructor and the destructor of `CUriWrapper`.
pub open_wrapper : Server → Bool → Text → UriCallbacks → Server × UriWrapper
unfolding add_uri
open_wrapper s has_server uri cbs =
    ((if has_server then add_uri s uri cbs else s), record { has_server = has_server; uri = uri })

pub close_wrapper : Server → UriWrapper → Server
unfolding remove_uri
close_wrapper s w = if w.has_server then remove_uri s w.uri else s

module _ (s : Server) (w : UriWrapper) where
  pub wrapper_send_content : Text → List Effect
  unfolding send_content_uri
  wrapper_send_content bytes = if w.has_server then send_content_uri s w.uri bytes else []

  pub wrapper_send_message : Text → List Effect
  unfolding send_message_uri
  wrapper_send_message message = if w.has_server then send_message_uri s w.uri message else []

  pub wrapper_clients_connected : Bool
  unfolding clients_connected
  wrapper_clients_connected = w.has_server && clients_connected s (some w.uri)

-- The delayed forms: `current` is the server when the payload is sent.
wrapper_send_delayed :
    (checked current : Server)
    → UriWrapper
    → (Text → Payload)
    → Option (Text → Text)
    → Bool × List Effect
unfolding send_delayed
wrapper_send_delayed checked current w make fill =
    if w.has_server then send_delayed checked current (some w.uri) make fill else (false, [])
