-- ===== src/Http/Connection.antt =====
-- `CHttpConnection`: reads requests, hands upgrades to a websocket session, dispatches the others
-- to their handlers and writes the responses. `ssl` is the connection's `IS_SSL`.
pub mod Starts
pub mod Upgrade
use Prim.Native.String.{String}
use websockets.Prelude.{
  ℕ, Bool, true, false, not, ◌&&◌, ◌||◌, List, [], ◌∷◌, ◌++◌, Option, none, some, if◌then◌else◌,
  ◌==◌, is_empty, ltb, leb,
}
use websockets.Text.{Text, codes}
use websockets.Target.{parse_target, Parameters}
use websockets.Server.{Server, ServerSettings}
use websockets.Server.Routing.{upgrade_allowed, find_http_handler}
use websockets.Server.Clients.{take_connection_id}
use websockets.Http.{HttpMsg, http_error_message, default_msg}
use websockets.Http.Wrapper.{HttpWrapper, fresh_wrapper}

-- The results of Beast's operations that the code tells apart.
pub data ErrorCode : Type 0 where
  success end_of_stream operation_aborted timeout other : ErrorCode

abbrev pub fails : ErrorCode → Bool
fails success = false
fails _ = true

-- What Beast has parsed. An empty content type stands for a request without the field.
pub record HttpRequest : Type 0 where
  pub is_upgrade : Bool
  pub target : Text
  pub method : Text
  pub version : ℕ
  pub keep_alive : Bool
  pub content_type : Text
  pub body : Text

-- An empty reason stands for the one that Beast has for the status.
pub record HttpResponse : Type 0 where
  pub version : ℕ
  pub status : ℕ
  pub reason : Text
  pub keep_alive : Bool
  pub content_type : Text
  pub body : Text

pub data Action : Type 0 where
  async_handshake async_read async_shutdown shutdown_send : Action
  async_write : HttpResponse → Action
  -- a new `CWsSession` takes the stream, and accepts the request
  accept_session : HttpRequest → Action
  -- `PostCallback` of the handler with a wrapper, which owns the reply
  post_request : ℕ → HttpWrapper → Action
  log_unexpected : Action
  -- an exception that no handler catches
  uncaught : Action

-- `LogUnexpected`
pub log_unexpected_error : ErrorCode → List Action
log_unexpected_error operation_aborted = []
log_unexpected_error timeout = []
log_unexpected_error _ = log_unexpected ∷ []

-- `SetRequestExpiry`: the deadline in seconds of the next operation, `none` for no deadline.
unfoldable pub request_expiry : ServerSettings → Option ℕ
request_expiry settings =
    if settings.handshake_timeout_s == 0 then none else some settings.handshake_timeout_s

-- `DoRead`
abbrev pub do_read : List Action
do_read = async_read ∷ []

-- `Run`, and the end of the ssl handshake.
unfoldable pub run : Bool → List Action
run ssl = if ssl then async_handshake ∷ [] else do_read

unfoldable pub on_handshake : ErrorCode → List Action
unfolding log_unexpected_error
on_handshake ec = if fails ec then log_unexpected_error ec else do_read

-- `SendErrorResponse`, up to the write.
error_response : HttpRequest → ℕ → Text → Text → Bool → HttpResponse
error_response request status reason json_body keep_alive = record {
  version = request.version;
  status = status;
  reason = reason;
  keep_alive = keep_alive;
  content_type = codes "application/json";
  body = json_body;
}

-- A status that HTTP gives no body.
abbrev pub bodiless : ℕ → Bool
bodiless status = (leb 100 status && ltb status 200) || (status == 204 || status == 304)

-- `SendResponse`. Beast's `result` throws for a status above 999, and its `prepare_payload` for a
-- body with a status that has none.
unfoldable pub send_response : HttpMsg → List Action
send_response msg =
    if ltb 999 msg.response_code || (bodiless msg.response_code && not (is_empty msg.body))
    then uncaught ∷ []
    else async_write (record {
      version = if msg.version == 0 then 11 else msg.version;
      status = msg.response_code;
      reason = msg.reason;
      keep_alive = msg.keep_alive;
      content_type = msg.context_type;
      body = msg.body;
    })
      ∷ []

-- `DoShutdown`
do_shutdown : Bool → List Action
do_shutdown ssl = if ssl then async_shutdown ∷ [] else shutdown_send ∷ []

-- The end of the write in `DoWrite`.
unfoldable pub on_write : Bool → HttpResponse → ErrorCode → List Action
unfolding log_unexpected_error do_shutdown
on_write ssl response ec =
    if fails ec
    then log_unexpected_error ec
    else if response.keep_alive
    then do_read
    else do_shutdown ssl

abbrev quoted : String → Text → String → Text
quoted before text after = codes before ++ (text ++ codes after)

-- The 404 for an upgrade that is not allowed, and the one for a path without a handler.
upgrade_refused : HttpRequest → Text → HttpResponse
unfolding error_response http_error_message
upgrade_refused request path =
    error_response request 404 (codes "Not Found")
      (http_error_message (codes "Not Found") (quoted "Websocket uri '" path "' is not allowed"))
      false

no_handler : HttpRequest → Text → HttpResponse
unfolding error_response http_error_message
no_handler request path =
    error_response request 404 (codes "Not Found")
      (http_error_message (codes "Not Found") (quoted "No handler registered for '" path "'"))
      request.keep_alive

-- The message that a handler is given.
unfoldable pub request_message : HttpRequest → Text → Parameters → ℕ → HttpMsg
unfolding default_msg
request_message request path parameters id = record default_msg {
  body = request.body;
  keep_alive = request.keep_alive;
  version = request.version;
  uri = path;
  query_parameters = parameters;
  method = request.method;
  context_type =
      if is_empty request.content_type then codes "application/json" else request.content_type;
  client_id = id;
}

-- `HandleHttpRequest`: the server with one more connection id taken, and what is started. The
-- case `none` does not arise, since `ParseTarget` always ends.
unfoldable pub handle_http_request : Server → HttpRequest → Server × List Action
unfolding no_handler request_message take_connection_id find_http_handler
handle_http_request s request = elim (parse_target request.target) [
  | none ↦ (s, [])
  | some (path, parameters) ↦
      let (s', id) = take_connection_id s in
      let msg = request_message request path parameters id in
      elim (find_http_handler s' path) [
        | none ↦ (s', async_write (no_handler request path) ∷ [])
        | some handler ↦ (s', post_request handler (fresh_wrapper msg) ∷ [])
      ]
]

-- An upgrade is refused with a 404, or handed to a new session.
pub handle_upgrade : Server → HttpRequest → List Action
unfolding upgrade_refused upgrade_allowed
handle_upgrade s request = elim (parse_target request.target) [
  | none ↦ []
  | some (path, ignored) ↦
      if upgrade_allowed s path
      then accept_session request ∷ []
      else async_write (upgrade_refused request path) ∷ []
]

abbrev pub read_log : ErrorCode → List Action
read_log end_of_stream = []
read_log ec = log_unexpected_error ec

-- `OnRead`; `none` is a server that is gone.
unfoldable pub on_read : Option Server → ErrorCode → HttpRequest → Option Server × List Action
unfolding handle_http_request handle_upgrade log_unexpected_error
on_read none ec request = (none, [])
on_read (some s) ec request =
    if fails ec
    then (some s, read_log ec)
    else if request.is_upgrade
    then (some s, handle_upgrade s request)
    else let (s', actions) = handle_http_request s request in (some s', actions)
