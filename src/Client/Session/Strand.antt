-- ===== src/Client/Session/Strand.antt =====
-- The client session with the operations that it has outstanding at its resolver and its stream.
pub mod Safety
pub mod Reports
pub mod Order
pub mod Flush
mod Tests
use websockets.Prelude.{
  ℕ, ◌≡◌, ◌+◌, Bool, true, false, not, ◌&&◌, ◌||◌, Option, none, some, List, [], ◌∷◌, ◌++◌,
  if◌then◌else◌, ltb,
}
use websockets.Text.{Text}
use websockets.Assoc.{Assoc}
use websockets.Client.{OutgoingMessage}
use websockets.Client.Session.{
  ClientSession, ErrorCode, success, fails, Action, async_resolve, async_connect,
  async_ssl_handshake, async_handshake, async_read, async_close, cancel, async_write, complete,
  on_message, on_content, on_disconnect, log_error, Outcome, new_session, on_async_connect,
  on_resolve, on_tcp_connect, on_ssl_handshake, on_websocket_handshake, on_send, on_close, on_read,
  on_write,
}

-- The operations that have not completed.
pub record Strand : Type 0 where
  pub session : ClientSession
  -- `AsyncConnect` has not run
  pub unstarted : Bool
  pub resolving : Bool
  pub connecting : Bool
  pub securing : Bool
  pub shaking : Bool
  pub reading : Bool
  pub writing : Bool
  pub closing : Bool
  -- an operation of the stream has completed with an error
  pub failed : Bool
  -- what the handlers have started and reported, oldest first
  pub trace : List Action
  -- the messages that were queued, oldest first
  pub accepted : List OutgoingMessage

pub data Event : Type 0 where
  connect : Text → ℕ → Text → Assoc Text Text → Event
  resolved : ErrorCode → Event
  tcp_connected : ErrorCode → Bool → Event
  ssl_shaken : ErrorCode → Event
  shaken : ErrorCode → Event
  send : OutgoingMessage → Event
  close : Event
  read_done : ErrorCode → Bool → Text → Event
  write_done : ErrorCode → Event
  close_done : Event

-- The connection is being made, so that nothing else may use the stream.
abbrev pub making : Strand → Bool
making t = t.resolving || (t.connecting || (t.securing || t.shaking))

-- One operation at a time while the connection is made; then one read, and one operation of the
-- write kind, of which a close is one. `none` means that this is violated.
unfoldable pub start_action : Strand → Action → Option Strand
start_action t async_resolve = if making t then none else some (record t { resolving = true })
start_action t async_connect = if making t then none else some (record t { connecting = true })
start_action t async_ssl_handshake = if making t then none else some (record t { securing = true })
start_action t async_handshake = if making t then none else some (record t { shaking = true })
start_action t async_read =
    if making t || t.reading then none else some (record t { reading = true })
start_action t (async_write p) =
    if making t || (t.writing || t.closing) then none else some (record t { writing = true })
start_action t async_close =
    if making t || (t.writing || t.closing) then none else some (record t { closing = true })
start_action t _ = some t

unfoldable pub start_actions : Strand → List Action → Option Strand
unfolding start_action
start_actions t [] = some t
start_actions t (a ∷ rest) = elim (start_action t a) [
  | none ↦ none
  | some t' ↦ start_actions t' rest
]

unfoldable pub perform : Strand → Outcome → Option Strand
unfolding start_actions
perform t none = none
perform t (some (s, actions)) =
    start_actions (record t { session = s; trace = t.trace ++ actions }) actions

-- A message that arrives now is queued: the session is open and not closing.
abbrev pub accepts : ClientSession → Bool
accepts s = s.is_open && not s.close_requested

-- A handler runs. A completion takes its operation off the list.
unfoldable pub fire : Strand → Event → Option Strand
unfolding perform
fire t (connect host port resource headers) =
    perform (record t { unstarted = false }) (on_async_connect t.session host port resource headers)
fire t (resolved ec) = perform (record t { resolving = false }) (on_resolve t.session ec)
fire t (tcp_connected ec sni) =
    perform (record t { connecting = false }) (on_tcp_connect t.session ec sni)
fire t (ssl_shaken ec) = perform (record t { securing = false }) (on_ssl_handshake t.session ec)
fire t (shaken ec) = perform (record t { shaking = false }) (on_websocket_handshake t.session ec)
fire t (send message) =
    perform
      (record t { accepted = if accepts t.session then t.accepted ++ message ∷ [] else t.accepted })
      (on_send t.session message)
fire t close = perform t (on_close t.session)
fire t (read_done ec got_text message) =
    perform (record t { reading = false; failed = t.failed || fails ec })
      (on_read t.session ec got_text message)
fire t (write_done ec) =
    perform (record t { writing = false; failed = t.failed || fails ec }) (on_write t.session ec)
fire t close_done = some (record t { closing = false })

-- What may happen: `AsyncConnect` once, and the completion of an operation that is outstanding, of
-- a read or a write with success only as long as none of these has failed.
abbrev pub Enabled : Strand → Event → Type 0
Enabled t (connect host port resource headers) = t.unstarted ≡ true
Enabled t (resolved ec) = t.resolving ≡ true
Enabled t (tcp_connected ec sni) = t.connecting ≡ true
Enabled t (ssl_shaken ec) = t.securing ≡ true
Enabled t (shaken ec) = t.shaking ≡ true
Enabled t (read_done ec got_text message) = (t.reading ≡ true) × (t.failed ≡ true → fails ec ≡ true)
Enabled t (write_done ec) = (t.writing ≡ true) × (t.failed ≡ true → fails ec ≡ true)
Enabled t close_done = t.closing ≡ true
Enabled t _ = Unit

-- A session that `CreateSession` has made.
unfoldable pub new_strand : Bool → Strand
unfolding new_session
new_strand is_ssl = record {
  session = new_session is_ssl;
  unstarted = true;
  resolving = false;
  connecting = false;
  securing = false;
  shaking = false;
  reading = false;
  writing = false;
  closing = false;
  failed = false;
  trace = [];
  accepted = [];
}

pub data Reach (ssl : Bool) : Strand → Type 0 where
  here : {t : Strand} → t ≡ new_strand ssl → Reach ssl t
  next : {t u : Strand} (e : Event) → Reach ssl t → Enabled t e → fire t e ≡ some u → Reach ssl u
