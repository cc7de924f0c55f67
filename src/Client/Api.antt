-- ===== src/Client/Api.antt =====
-- The public class `CWebsocketClient` (src/CWebsocketClient.cpp), which forwards to `CImpl`.
pub mod Headers
mod Tests
use websockets.Prelude.{ℕ, Bool, Option, none, some, List, []}
use websockets.Text.{Text, codes}
use websockets.Client.{OutgoingMessage, text, binary}
use websockets.Client.Impl.{
  Client, ClientSettings, Effect, default_settings, new_client, shut_down, Wait, connect,
  async_connect, send_message, host_or_default,
}

-- The constructors.
unfoldable pub construct : Option ClientSettings → Client
unfolding new_client
construct none = new_client default_settings
construct (some settings) = new_client settings

-- The destructor.
unfoldable pub destroy : Client → Client × List Effect
unfolding shut_down
destroy c = shut_down c

-- `DEFAULT_RESOURCE`
abbrev pub default_resource : Text
default_resource = codes "/"

-- The overloads of `Connect`.
unfoldable pub connect_to : Client → Text → ℕ → Text → Wait → Client × Bool × List Effect
unfolding connect host_or_default
connect_to c host port resource wait = connect c (host_or_default host) port resource wait

connect_host : Client → Text → Wait → Client × Bool × List Effect
unfolding connect_to
connect_host c host wait = connect_to c host 8080 default_resource wait

connect_port : Client → Text → ℕ → Wait → Client × Bool × List Effect
unfolding connect_to
connect_port c host port wait = connect_to c host port default_resource wait

connect_resource : Client → Text → Text → Wait → Client × Bool × List Effect
unfolding connect_to
connect_resource c host resource wait = connect_to c host 8080 resource wait

-- The overloads of `AsyncConnect`.
pub async_connect_to : Client → Text → ℕ → Text → Client × List Effect
unfolding async_connect host_or_default
async_connect_to c host port resource = async_connect c (host_or_default host) port resource

async_connect_host : Client → Text → Client × List Effect
unfolding async_connect_to
async_connect_host c host = async_connect_to c host 8080 default_resource

async_connect_port : Client → Text → ℕ → Client × List Effect
unfolding async_connect_to
async_connect_port c host port = async_connect_to c host port default_resource

async_connect_resource : Client → Text → Text → Client × List Effect
unfolding async_connect_to
async_connect_resource c host resource = async_connect_to c host 8080 resource

-- `SendMessage`, and `SendContent` of a shared payload, which may be missing, or of a copy.
unfoldable pub send_text : (ℕ → Bool) → Client → Text → List Effect
unfolding send_message
send_text is_open c message = send_message is_open c (text message)

send_shared : (ℕ → Bool) → Client → Option Text → List Effect
unfolding send_message
send_shared is_open c none = []
send_shared is_open c (some bytes) = send_message is_open c (binary bytes)

unfoldable pub send_content : (ℕ → Bool) → Client → Text → List Effect
unfolding send_shared
send_content is_open c bytes = send_shared is_open c (some bytes)

-- The four that register a callback.
unfoldable pub register_connect_callback : Client → Option ℕ → Client
register_connect_callback c cb = record c { on_connect = cb }

unfoldable pub register_disconnect_callback : Client → Option ℕ → Client
register_disconnect_callback c cb = record c { on_disconnect = cb }

unfoldable pub register_message_callback : Client → Option ℕ → Client
register_message_callback c cb = record c { on_message = cb }

unfoldable pub register_content_callback : Client → Option ℕ → Client
register_content_callback c cb = record c { on_content = cb }
