-- ===== src/Session/Strand.antt =====
-- The session with the operations that it has outstanding at its Beast stream.
pub mod Safety
pub mod Reports
pub mod Order
pub mod Backlog
pub mod Flush
pub mod Face
pub mod Steady
pub mod Reads
mod Tests
use websockets.Prelude.{
  ℕ, ◌≡◌, ◌≢◌, ◌+◌, ◌≤◌, Bool, true, false, not, ◌&&◌, ◌||◌, Option, none, some, List, [], ◌∷◌,
  ◌++◌, if◌then◌else◌, is_empty, arith, All,
}
use websockets.Text.{Text}
use websockets.Payload.{Payload}
use websockets.Session.{
  Session, ErrorCode, success, fails, Action, async_accept, async_read, async_close, cancel,
  async_write, on_message, on_content, on_closed, log_backlog_full, log_accept, log_connection,
  Outcome, is_full, new_session, on_send, on_close, on_accept, on_read, on_write,
}

pub record Strand : Type 0 where
  pub session : Session
  -- the operations that have not completed
  pub accepting : Bool
  pub reading : Bool
  pub writing : Bool
  pub closing : Bool
  -- an operation of the stream has completed with an error
  pub failed : Bool
  -- what the handlers have started and reported, oldest first
  pub trace : List Action
  -- the payloads that were queued, oldest first
  pub accepted : List Payload

pub data Event : Type 0 where
  accept_done : ErrorCode → Option ℕ → Event
  send : Payload → Event
  close : Event
  read_done : ErrorCode → Bool → Text → Event
  write_done : ErrorCode → Event
  close_done : Event

-- Beast takes one read and one operation of the write kind at a time; a close is of that kind.
-- `none` means that this is violated.
unfoldable pub start_action : Strand → Action → Option Strand
start_action t async_read = if t.reading then none else some (record t { reading = true })
start_action t (async_write p) =
    if t.writing || t.closing then none else some (record t { writing = true })
start_action t async_close =
    if t.writing || t.closing then none else some (record t { closing = true })
start_action t _ = some t

unfoldable pub start_actions : Strand → List Action → Option Strand
unfolding start_action
start_actions t [] = some t
start_actions t (a ∷ rest) = elim (start_action t a) [
  | none ↦ none
  | some t' ↦ start_actions t' rest
]

unfoldable pub perform : Strand → Outcome → Option Strand
unfolding start_actions
perform t none = none
perform t (some (s, actions)) =
    start_actions (record t { session = s; trace = t.trace ++ actions }) actions

-- A payload that arrives now is queued: the session is open, not closing, and has room.
abbrev pub accepts : Session → Bool
accepts s = s.is_open && (not s.close_requested && not (is_full s))

-- A handler runs. A completion takes its operation off the list.
unfoldable pub fire : Strand → Event → Option Strand
unfolding perform
fire t (accept_done ec registered) =
    perform (record t { accepting = false }) (on_accept t.session ec registered)
fire t (send payload) =
    perform
      (record t { accepted = if accepts t.session then t.accepted ++ payload ∷ [] else t.accepted })
      (on_send t.session payload)
fire t close = perform t (on_close t.session)
fire t (read_done ec got_text message) =
    perform (record t { reading = false; failed = t.failed || fails ec })
      (on_read t.session ec got_text message)
fire t (write_done ec) =
    perform (record t { writing = false; failed = t.failed || fails ec }) (on_write t.session ec)
fire t close_done = some (record t { closing = false })

-- What Beast may complete: an operation that is outstanding, and with success only as long as none
-- has failed.
abbrev pub Enabled : Strand → Event → Type 0
Enabled t (accept_done ec registered) = t.accepting ≡ true
Enabled t (read_done ec got_text message) = (t.reading ≡ true) × (t.failed ≡ true → fails ec ≡ true)
Enabled t (write_done ec) = (t.writing ≡ true) × (t.failed ≡ true → fails ec ≡ true)
Enabled t close_done = t.closing ≡ true
Enabled t _ = Unit

-- `Accept` has been called.
unfoldable pub new_strand : ℕ → Bool → Text → Strand
unfolding new_session
new_strand max_session_backlog is_ssl target = record {
  session = new_session max_session_backlog is_ssl target;
  accepting = true;
  reading = false;
  writing = false;
  closing = false;
  failed = false;
  trace = [];
  accepted = [];
}

-- A run in which every event is one that Beast or the server may cause.
pub data Reach (first : Strand) : Strand → Type 0 where
  here : Reach first first
  next :
      {t u : Strand} (e : Event) → Reach first t → Enabled t e → fire t e ≡ some u → Reach first u
