-- ===== src/Server.antt =====
-- The state of `CWebsocketServer::CImpl` (src/CWebsocketServer.cpp) and the effects of its
-- operations. What an operation does under the lock is a change of the state; what it then does
-- outside the lock is returned as a list of effects, in the order of the code.
pub mod Routing
pub mod Clients
pub mod Sends
pub mod Api
pub mod Lifecycle
pub mod Receive
mod Tests
use websockets.Prelude.{ℕ, Bool, true, false, Option, none, List, []}
use websockets.Text.{Text}
use websockets.Assoc.{Assoc}
use websockets.Payload.{Payload}

-- A `std::function` held by the server: `none` is the empty function, a number names the target.
abbrev pub Handler : Type 0
Handler = Option ℕ

pub record ClientCallbacks : Type 0 where
  pub on_client_added : Handler
  pub on_client_closed : Handler
  pub on_client_message_received : Handler
  pub on_client_content_received : Handler

pub record UriCallbacks : Type 0 where
  pub on_connection_change : Handler
  pub on_client_message_received : Handler
  pub on_client_content_received : Handler
  pub on_request_received : Handler

-- `CServerSettings`, less the mutex and the pool. `ssl_context` is an optional pointer.
pub record ServerSettings : Type 0 where
  pub handshake_timeout_s : ℕ
  pub idle_timeout_s : ℕ
  pub enable_pings : Bool
  pub ssl_context : Option (Option ℕ)
  pub ssl_required : Bool
  pub allowed_uris : Option (List Text)
  pub max_session_backlog : ℕ

-- `SClientEntry`; a session is named by a number.
pub record ClientEntry : Type 0 where
  pub session : ℕ
  pub uri : Text
  pub is_ssl : Bool

pub record Server : Type 0 where
  pub settings : ServerSettings
  pub shutdown : Bool
  pub acceptor : Option ℕ
  pub port : ℕ
  pub next_connection_id : ℕ
  pub client_cbs : ClientCallbacks
  pub clients : Assoc ℕ ClientEntry
  pub uris : Assoc Text UriCallbacks
  pub uri_counts : Assoc Text ℕ

-- A call of a user's callback, with its arguments.
pub data Call : Type 0 where
  added : ℕ → ℕ → Text → Bool → Call
  closed : ℕ → ℕ → Call
  connection_change : ℕ → ℕ → Call
  message : ℕ → ℕ → Text → Call
  received : ℕ → ℕ → Text → Call

pub data Effect : Type 0 where
  -- `PostCallback`: one entry of the workqueue, which makes the calls in order
  post : List Call → Effect
  -- `Invoke` in the calling thread
  invoke : Call → Effect
  -- `session->Close()` and `session->Send(payload)`
  close_session : ℕ → Effect
  send : ℕ → Payload → Effect
  close_acceptor : ℕ → Effect
  accept_next : ℕ → Effect
  stop_work_queue : Effect
  log_not_connected : ℕ → Effect

abbrev pub no_client_callbacks : ClientCallbacks
no_client_callbacks = record {
  on_client_added = none;
  on_client_closed = none;
  on_client_message_received = none;
  on_client_content_received = none;
}

-- `CServerSettings()`
abbrev pub default_settings : ServerSettings
default_settings = record {
  handshake_timeout_s = 30;
  idle_timeout_s = 30;
  enable_pings = true;
  ssl_context = none;
  ssl_required = false;
  allowed_uris = none;
  max_session_backlog = 1024;
}

-- The state after construction.
unfoldable pub new_server : ServerSettings → Server
new_server settings = record {
  settings = settings;
  shutdown = false;
  acceptor = none;
  port = 0;
  next_connection_id = 1;
  client_cbs = no_client_callbacks;
  clients = [];
  uris = [];
  uri_counts = [];
}
