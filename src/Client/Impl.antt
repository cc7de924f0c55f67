-- ===== src/Client/Impl.antt =====
-- `CWebsocketClient::CImpl` and the class before it (src/CWebsocketClient.cpp). What an operation
-- does under a lock is a change of the state; what it then does outside is returned as effects.
-- A session is named by a number, in the order of creation.
pub mod Sessions
use Prim.Native.String.{String}
use websockets.Prelude.{
  ℕ, ◌≡◌, ◌+◌, ◌*◌, Bool, true, false, not, Option, none, some, List, [], ◌∷◌, ◌++◌, ◌==◌,
  if◌then◌else◌, is_empty,
}
use websockets.Text.{Text, codes}
use websockets.Assoc.{Assoc, insert, text_key}
use websockets.Client.{OutgoingMessage, text, binary}

-- `CClientSettings`, less the pool. `ssl_context` is an optional pointer.
pub record ClientSettings : Type 0 where
  pub handshake_timeout_s : ℕ
  pub idle_timeout_s : ℕ
  pub enable_pings : Bool
  pub ssl_context : Option (Option ℕ)

-- `CClientSettings()`
abbrev pub default_settings : ClientSettings
default_settings = record {
  handshake_timeout_s = 30;
  idle_timeout_s = 30;
  enable_pings = true;
  ssl_context = none;
}

pub record Client : Type 0 where
  pub settings : ClientSettings
  pub shutdown : Bool
  pub session : Option ℕ
  -- the number of sessions made so far
  pub next_session : ℕ
  pub handshake_headers : Assoc Text Text
  pub on_connect : Option ℕ
  pub on_disconnect : Option ℕ
  pub on_message : Option ℕ
  pub on_content : Option ℕ

-- A call of a user's callback.
pub data Call : Type 0 where
  connected disconnected : ℕ → Call
  message received : ℕ → Text → Call

pub data Effect : Type 0 where
  -- `CreateSession`, with ssl or without
  create : ℕ → Bool → Effect
  close_session : ℕ → Effect
  connect_session : ℕ → Text → ℕ → Text → Assoc Text Text → Effect
  send : ℕ → OutgoingMessage → Effect
  post : Call → Effect
  stop_work_queue log_not_connected log_timed_out : Effect

unfoldable pub new_client : ClientSettings → Client
new_client settings = record {
  settings = settings;
  shutdown = false;
  session = none;
  next_session = 0;
  handshake_headers = [];
  on_connect = none;
  on_disconnect = none;
  on_message = none;
  on_content = none;
}

abbrev pub close_of : Option ℕ → List Effect
close_of none = []
close_of (some id) = close_session id ∷ []

-- `Shutdown`, which only the first call runs.
unfoldable pub shut_down : Client → Client × List Effect
shut_down c =
    if c.shutdown
    then (c, [])
    else (record c { shutdown = true; session = none }, close_of c.session ++ stop_work_queue ∷ [])

-- `mSettings.sslContext && *mSettings.sslContext`, by which `CreateSession` chooses the stream.
abbrev pub uses_ssl : ClientSettings → Bool
uses_ssl settings = elim settings.ssl_context [
  | none ↦ false
  | some p ↦ elim p [ none ↦ false | some context ↦ true ]
]

-- `DoConnect`: a new session takes the place of the current one, which is closed.
unfoldable pub do_connect : Client → Text → ℕ → Text → Client × List Effect
do_connect c host port resource =
    let id = c.next_session in
    (
      record c { session = some id; next_session = id + 1 },
      create id (uses_ssl c.settings)
          ∷ (close_of c.session ++ connect_session id host port resource c.handshake_headers ∷ []),
    )

abbrev pub post_if : Option ℕ → (ℕ → Call) → List Effect
post_if none call = []
post_if (some h) call = post (call h) ∷ []

-- `NotifyConnected`, `OnSessionDisconnect`, `OnSessionMessage` and `OnSessionContent`
notify_connected : Client → List Effect
notify_connected c = post_if c.on_connect connected

on_session_disconnect : Client → List Effect
on_session_disconnect c = post_if c.on_disconnect disconnected

on_session_message : Client → Text → List Effect
on_session_message c m = post_if c.on_message (λ h. message h m)

on_session_content : Client → Text → List Effect
on_session_content c m = post_if c.on_content (λ h. received h m)

-- `mSession` and the session of the handler are the same object.
abbrev pub is_current : Option ℕ → ℕ → Bool
is_current none id = false
is_current (some j) id = j == id

-- The handler that `DoConnect` gives to the session, called when the attempt is complete.
unfoldable pub on_attempt : Client → ℕ → Bool → Client × List Effect
unfolding notify_connected on_session_disconnect
on_attempt c id true = (c, notify_connected c)
on_attempt c id false =
    ((if is_current c.session id then record c { session = none } else c), on_session_disconnect c)

-- `AsyncConnect`
unfoldable pub async_connect : Client → Text → ℕ → Text → Client × List Effect
unfolding do_connect
async_connect c host port resource = if c.shutdown then (c, []) else do_connect c host port resource

-- How the wait of `Connect` for its future ends: with the result of the attempt, by the timeout,
-- or because the promise was dropped.
pub data Wait : Type 0 where
  ready : Bool → Wait
  timed_out broken : Wait

-- The seconds that `Connect` waits, `none` for no limit.
safety_timeout : ClientSettings → Option ℕ
safety_timeout settings =
    if settings.handshake_timeout_s == 0 then none else some (settings.handshake_timeout_s * 3 + 5)

abbrev wait_result : Wait → Bool
wait_result (ready ok) = ok
wait_result _ = false

abbrev wait_log : Wait → List Effect
wait_log timed_out = log_timed_out ∷ []
wait_log _ = []

-- `Connect`. The attempt itself goes on by `on_attempt`.
unfoldable pub connect : Client → Text → ℕ → Text → Wait → Client × Bool × List Effect
unfolding do_connect
connect c host port resource wait =
    let (c', effects) = do_connect c host port resource in
    if c.shutdown then (c, false, []) else (c', wait_result wait, effects ++ wait_log wait)

-- `IsConnected`; `is_open` tells of each session whether it is open.
is_connected : (ℕ → Bool) → Client → Bool
is_connected is_open c = elim c.session [ none ↦ false | some id ↦ is_open id ]

-- `Close`
unfoldable pub close : Client → List Effect
close c = close_of c.session

-- `Send`
unfoldable pub send_message : (ℕ → Bool) → Client → OutgoingMessage → List Effect
send_message is_open c m = elim c.session [
  | none ↦ log_not_connected ∷ []
  | some id ↦ if is_open id then send id m ∷ [] else log_not_connected ∷ []
]

-- `SetHandshakeHeader` and `ClearHandshakeHeaders`
unfoldable pub set_handshake_header : Client → Text → Text → Client
set_handshake_header c name value = record c {
  handshake_headers = insert name value c.handshake_headers;
}

unfoldable pub clear_handshake_headers : Client → Client
clear_handshake_headers c = record c { handshake_headers = [] }

-- `Connect` of the class: an empty host is the default one.
unfoldable pub host_or_default : Text → Text
host_or_default host = if is_empty host then codes "127.0.0.1" else host
