-- ===== src/Session.antt =====
-- `CWsSession` of src/CWebsocketServer.cpp: one connected client on its strand. Every function is
-- the body of one handler that runs on the strand; a handler returns the new state and the actions
-- that it starts, in order. `none` is undefined behaviour: `front` or `pop_front` of an empty
-- queue.
pub mod Strand
use websockets.Prelude.{
  ℕ, ◌≡◌, Bool, true, false, not, ◌&&◌, ◌||◌, Option, none, some, List, [], ◌∷◌, ◌++◌, ltb, leb,
  if◌then◌else◌, is_empty, length, ◌==◌,
}
use websockets.Text.{Text}
use websockets.Payload.{Payload}

-- The results of Beast's operations that the code tells apart.
pub data ErrorCode : Type 0 where
  success closed operation_aborted eof connection_reset timeout other : ErrorCode

abbrev pub fails : ErrorCode → Bool
fails success = false
fails _ = true

pub record Session : Type 0 where
  pub max_session_backlog : ℕ
  pub is_ssl : Bool
  pub target : Text
  pub write_queue : List Payload
  pub client_id : ℕ
  pub is_open : Bool
  pub close_requested : Bool
  pub close_sent : Bool
  pub drop_logged : Bool

-- What a handler starts or reports.
pub data Action : Type 0 where
  async_accept async_read async_close cancel : Action
  async_write : Payload → Action
  -- calls of `IServerEvents`
  on_message on_content : ℕ → Text → Action
  on_closed : ℕ → Action
  log_backlog_full log_accept log_connection : Action

abbrev pub Outcome : Type 0
Outcome = Option (Session × List Action)

infixl 5 ◌>>=◌
abbrev ◌>>=◌ : Outcome → (Session → Outcome) → Outcome
none >>= k = none
some (s, actions) >>= k = elim (k s) [ none ↦ none | some (s', more) ↦ some (s', actions ++ more) ]

-- A new session, before `Accept`.
unfoldable pub new_session : ℕ → Bool → Text → Session
new_session max_session_backlog is_ssl target = record {
  max_session_backlog = max_session_backlog;
  is_ssl = is_ssl;
  target = target;
  write_queue = [];
  client_id = 0;
  is_open = false;
  close_requested = false;
  close_sent = false;
  drop_logged = false;
}

-- `DoRead`
unfoldable pub do_read : Session → Outcome
do_read s = some (s, async_read ∷ [])

-- `DoWrite`, which takes the front of the queue.
unfoldable pub do_write : Session → Outcome
do_write s = elim s.write_queue [ [] ↦ none | payload ∷ rest ↦ some (s, async_write payload ∷ []) ]

-- `MaybeSendClose`
unfoldable pub maybe_send_close : Session → Outcome
maybe_send_close s =
    if s.close_sent || not (is_empty s.write_queue)
    then some (s, [])
    else some (record s { close_sent = true }, async_close ∷ [])

-- The backlog is full: `maxSessionBacklog > 0 && size >= maxSessionBacklog`.
abbrev pub is_full : Session → Bool
is_full s = ltb 0 s.max_session_backlog && leb s.max_session_backlog (length s.write_queue)

-- The handler that `Send` posts to the strand.
unfoldable pub on_send : Session → Payload → Outcome
unfolding do_write
on_send s payload =
    let queued = record s { write_queue = s.write_queue ++ payload ∷ [] } in
    if not s.is_open || s.close_requested
    then some (s, [])
    else if is_full s
    then (if s.drop_logged
        then some (s, [])
        else some (record s { drop_logged = true }, log_backlog_full ∷ []))
    else if length queued.write_queue == 1
    then do_write queued
    else some (queued, [])

-- The handler that `Close` posts to the strand.
unfoldable pub on_close : Session → Outcome
unfolding maybe_send_close
on_close s =
    let s' = record s { close_requested = true } in
    if not s.is_open then some (s', cancel ∷ []) else maybe_send_close s'

-- The ends of a connection that are routine.
abbrev pub is_expected : ErrorCode → Bool
is_expected success = false
is_expected other = false
is_expected _ = true

-- `HandleClosed`
unfoldable pub handle_closed : Session → ErrorCode → Outcome
handle_closed s ec =
    let s' = record s { write_queue = []; is_open = false } in
    if not s.is_open
    then some (s', [])
    else if is_expected ec || s.close_requested
    then some (s', on_closed s.client_id ∷ [])
    else some (s', log_connection ∷ on_closed s.client_id ∷ [])

-- An error is logged, unless the operation was aborted.
abbrev pub accept_log : ErrorCode → List Action
accept_log operation_aborted = []
accept_log _ = log_accept ∷ []

-- `OnAccept`. The last argument is `none` if the server is gone, and else the id that
-- `RegisterWsClient` returns.
unfoldable pub on_accept : Session → ErrorCode → Option ℕ → Outcome
unfolding maybe_send_close do_read
on_accept s ec none = some (s, [])
on_accept s ec (some registered) =
    let opened = record s { is_open = true; client_id = registered } in
    if fails ec
    then some (s, accept_log ec)
    else if registered == 0
    then maybe_send_close (record opened { close_requested = true })
    else if opened.close_requested
    then (maybe_send_close opened >>= do_read)
    else do_read opened

-- `OnRead`. `message` is what was read: a text if the first part holds.
unfoldable pub on_read : Session → ErrorCode → Bool → Text → Outcome
unfolding handle_closed do_read
on_read s ec got_text message =
    if fails ec
    then handle_closed s ec
    else some (
      s,
      (if got_text then on_message s.client_id message else on_content s.client_id message)
          ∷ async_read
          ∷ [],
    )

-- What `OnWrite` does once the payload that was written is off the queue.
unfoldable pub after_write : Session → Outcome
unfolding do_write maybe_send_close
after_write s =
    if not (is_empty s.write_queue)
    then do_write s
    else if s.close_requested
    then maybe_send_close s
    else some (s, [])

-- `OnWrite`
unfoldable pub on_write : Session → ErrorCode → Outcome
unfolding handle_closed after_write
on_write s ec = if fails ec then handle_closed s ec else elim s.write_queue [
  | [] ↦ none
  | payload ∷ rest ↦ after_write (record s { write_queue = rest })
]
