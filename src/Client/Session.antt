-- ===== src/Client/Session.antt =====
-- `CSession` of src/CWebsocketClient.cpp: one connection attempt and what follows, on its strand.
-- Every function is the body of one handler that runs on the strand; it returns the new state and
-- the actions that it starts, in order. `none` is undefined behaviour: `front` or `pop_front` of
-- an empty queue.
pub mod Strand
use Prim.Native.String.{String}
use websockets.Prelude.{
  ℕ, ◌≡◌, Bool, true, false, not, ◌&&◌, ◌||◌, Option, none, some, List, [], ◌∷◌, ◌++◌,
  if◌then◌else◌, is_empty, length, ◌==◌,
}
use websockets.Text.{Text, codes}
use websockets.Assoc.{Assoc}
use websockets.Client.{OutgoingMessage}

-- The results of the operations of Beast and Asio that the code tells apart.
pub data ErrorCode : Type 0 where
  success closed operation_aborted other : ErrorCode

abbrev pub fails : ErrorCode → Bool
fails success = false
fails _ = true

-- Where to connect; the host header is the host and the port, joined by ':'.
pub record Endpoint : Type 0 where
  pub host : Text
  pub port : ℕ
  pub resource : Text
  pub handshake_headers : Assoc Text Text

pub record ClientSession : Type 0 where
  pub is_ssl : Bool
  pub endpoint : Option Endpoint
  pub write_queue : List OutgoingMessage
  -- `mOnConnectComplete` is set
  pub on_connect_complete : Bool
  pub is_open : Bool
  pub close_requested : Bool
  pub close_sent : Bool

pub data Action : Type 0 where
  async_resolve async_connect async_ssl_handshake async_handshake : Action
  async_read async_close cancel : Action
  async_write : OutgoingMessage → Action
  -- `onComplete(success)`
  complete : Bool → Action
  -- calls of `ISessionEvents`
  on_message on_content : Text → Action
  on_disconnect : Action
  log_error : Action

abbrev pub Outcome : Type 0
Outcome = Option (ClientSession × List Action)

infixl 5 ◌>>=◌
abbrev ◌>>=◌ : Outcome → (ClientSession → Outcome) → Outcome
none >>= k = none
some (s, actions) >>= k = elim (k s) [ none ↦ none | some (s', more) ↦ some (s', actions ++ more) ]

unfoldable pub new_session : Bool → ClientSession
new_session is_ssl = record {
  is_ssl = is_ssl;
  endpoint = none;
  write_queue = [];
  on_connect_complete = false;
  is_open = false;
  close_requested = false;
  close_sent = false;
}

-- The handler that `AsyncConnect` dispatches; an empty resource becomes "/".
unfoldable pub on_async_connect : ClientSession → Text → ℕ → Text → Assoc Text Text → Outcome
on_async_connect s host port resource headers =
    let endpoint : Endpoint = record {
      host = host;
      port = port;
      resource = if is_empty resource then codes "/" else resource;
      handshake_headers = headers;
    } in
    some (record s { endpoint = some endpoint; on_connect_complete = true }, async_resolve ∷ [])

abbrev connect_log : Bool → ErrorCode → List Action
connect_log true ec = []
connect_log false operation_aborted = []
connect_log false ec = log_error ∷ []

-- `CompleteConnect`, which calls its function once.
complete_connect : ClientSession → Bool → ErrorCode → Outcome
complete_connect s ok ec = some (
  record s { on_connect_complete = false },
  connect_log ok ec ++ (if s.on_connect_complete then complete ok ∷ [] else []),
)

-- `OnResolve`
unfoldable pub on_resolve : ClientSession → ErrorCode → Outcome
unfolding complete_connect
on_resolve s ec = if fails ec then complete_connect s false ec else some (s, async_connect ∷ [])

-- `OnTcpConnect`. `sni` says whether setting the host name for the handshake succeeded; if not, its
-- error is an error of the ssl library.
unfoldable pub on_tcp_connect : ClientSession → ErrorCode → Bool → Outcome
unfolding complete_connect
on_tcp_connect s ec sni =
    if fails ec
    then complete_connect s false ec
    else if not s.is_ssl
    then some (s, async_handshake ∷ [])
    else if sni
    then some (s, async_ssl_handshake ∷ [])
    else complete_connect s false other

-- `OnSslHandshake`
unfoldable pub on_ssl_handshake : ClientSession → ErrorCode → Outcome
unfolding complete_connect
on_ssl_handshake s ec =
    if fails ec then complete_connect s false ec else some (s, async_handshake ∷ [])

-- `DoRead`
unfoldable pub do_read : ClientSession → Outcome
do_read s = some (s, async_read ∷ [])

-- `DoWrite`, which takes the front of the queue.
unfoldable pub do_write : ClientSession → Outcome
do_write s = elim s.write_queue [ [] ↦ none | message ∷ rest ↦ some (s, async_write message ∷ []) ]

-- `MaybeSendClose`
unfoldable pub maybe_send_close : ClientSession → Outcome
maybe_send_close s =
    if s.close_sent || not (is_empty s.write_queue)
    then some (s, [])
    else some (record s { close_sent = true }, async_close ∷ [])

abbrev close_if_requested : ClientSession → Outcome
close_if_requested s = if s.close_requested then maybe_send_close s else some (s, [])

-- `OnWebsocketHandshake`
unfoldable pub on_websocket_handshake : ClientSession → ErrorCode → Outcome
unfolding complete_connect maybe_send_close do_read
on_websocket_handshake s ec =
    if fails ec
    then complete_connect s false ec
    else (complete_connect (record s { is_open = true }) true success
        >>= close_if_requested
        >>= do_read)

-- The handler that `Send` posts to the strand.
unfoldable pub on_send : ClientSession → OutgoingMessage → Outcome
unfolding do_write
on_send s message =
    let queued = record s { write_queue = s.write_queue ++ message ∷ [] } in
    if not s.is_open || s.close_requested
    then some (s, log_error ∷ [])
    else if length queued.write_queue == 1
    then do_write queued
    else some (queued, [])

-- The handler that `Close` posts to the strand.
unfoldable pub on_close : ClientSession → Outcome
unfolding maybe_send_close
on_close s =
    let s' = record s { close_requested = true } in
    if not s.is_open then some (s', cancel ∷ []) else maybe_send_close s'

abbrev is_expected : ErrorCode → Bool
is_expected closed = true
is_expected operation_aborted = true
is_expected _ = false

-- `HandleClosed`
unfoldable pub handle_closed : ClientSession → ErrorCode → Outcome
handle_closed s ec =
    let s' = record s { write_queue = []; is_open = false } in
    if not s.is_open
    then some (s', [])
    else if is_expected ec || s.close_requested
    then some (s', on_disconnect ∷ [])
    else some (s', log_error ∷ on_disconnect ∷ [])

-- `OnRead`. `message` is what was read: a text if `got_text` holds.
unfoldable pub on_read : ClientSession → ErrorCode → Bool → Text → Outcome
unfolding handle_closed
on_read s ec got_text message =
    if fails ec
    then handle_closed s ec
    else some (s, (if got_text then on_message message else on_content message) ∷ async_read ∷ [])

-- What `OnWrite` does once the message that was written is off the queue.
unfoldable pub after_write : ClientSession → Outcome
unfolding do_write maybe_send_close
after_write s = if not (is_empty s.write_queue) then do_write s else close_if_requested s

-- `OnWrite`
unfoldable pub on_write : ClientSession → ErrorCode → Outcome
unfolding handle_closed after_write
on_write s ec = if fails ec then handle_closed s ec else elim s.write_queue [
  | [] ↦ none
  | message ∷ rest ↦ after_write (record s { write_queue = rest })
]
