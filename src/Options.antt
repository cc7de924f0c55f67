-- ===== src/Options.antt =====
-- The options of Beast's websocket streams, which `CWsSession::Accept` (src/CWebsocketServer.cpp)
-- and `CSession::DoWebsocketHandshake` (src/CWebsocketClient.cpp) set.
use websockets.Prelude.{ℕ, Bool, Option, none, some, [], ◌∷◌, ◌++◌, ◌==◌, if◌then◌else◌}
use websockets.Text.{Text, codes}
use websockets.Assoc.{Assoc}
use websockets.Server.{ServerSettings}
use websockets.Client.Impl.{ClientSettings}

-- `stream_base::timeout`: times in seconds, `none` for no limit.
pub record Timeouts : Type 0 where
  pub handshake_timeout : Option ℕ
  pub idle_timeout : Option ℕ
  pub keep_alive_pings : Bool

abbrev limit : ℕ → Option ℕ
limit s = if s == 0 then none else some s

-- What `Accept` sets.
server_timeouts : ServerSettings → Timeouts
server_timeouts settings = record {
  handshake_timeout = limit settings.handshake_timeout_s;
  idle_timeout = limit settings.idle_timeout_s;
  keep_alive_pings = settings.enable_pings;
}

-- What `DoWebsocketHandshake` sets.
client_timeouts : ClientSettings → Timeouts
client_timeouts settings = record {
  handshake_timeout = limit settings.handshake_timeout_s;
  idle_timeout = limit settings.idle_timeout_s;
  keep_alive_pings = settings.enable_pings;
}

-- The decorators. `set` is the one of Beast's fields, and `version` its version.
module _ {Fields : Type 0} (set : Text → Text → Fields → Fields) (version : Text) where
  decorate_response : Fields → Fields
  decorate_response response = set (codes "Server") (version ++ codes " CWebsocketServer") response

  set_all : Assoc Text Text → Fields → Fields
  set_all [] request = request
  set_all ((name, value) ∷ headers) request = set_all headers (set name value request)

  -- The user's headers come after the default one, and may replace it.
  decorate_request : Assoc Text Text → Fields → Fields
  unfolding set_all
  decorate_request headers request =
      set_all headers (set (codes "User-Agent") (version ++ codes " CWebsocketClient") request)
