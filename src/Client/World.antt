-- ===== src/Client/World.antt =====
-- The client with its sessions (src/CWebsocketClient.cpp): `CImpl` makes a session for each attempt
-- to connect and posts to its strand; the session reports how the attempt ends. What is posted
-- waits in one inbox, of which any part may be delivered next.
pub mod Handlers
pub mod Posts
pub mod Linked
pub mod Deliveries
pub mod Calls
pub mod Runs
mod Tests
use websockets.Prelude.{
  ℕ, ◌≡◌, Bool, true, false, not, ◌&&◌, ◌||◌, Option, none, some, List, [], ◌∷◌, ◌++◌, ◌==◌,
  if◌then◌else◌,
}
use websockets.Text.{Text}
use websockets.Assoc.{Assoc}
use websockets.Client.{OutgoingMessage}
use websockets.Client.Session.{Action, complete}
use websockets.Client.Session.Strand.{Strand, making, fire, new_strand}
use websockets.Client.Session.Strand as Strand
use websockets.Client.Impl.{
  Client, ClientSettings, Effect, create, close_session, connect_session, new_client, shut_down,
  async_connect, on_attempt, close, send_message,
}
use websockets.Server.Lifecycle.{pick}
use websockets.Service.{set}

-- What the client posts to a session's strand.
pub data Post : Type 0 where
  connects : Text → ℕ → Text → Assoc Text Text → Post
  sends : OutgoingMessage → Post
  closes : Post

pub record World : Type 0 where
  pub client : Client
  pub sessions : ℕ → Strand
  pub inbox : List (ℕ × Post)

pub data Event : Type 0 where
  -- a call of the user
  opens : Text → ℕ → Text → Event
  submits : OutgoingMessage → Event
  closes_current shuts_down : Event
  -- one of the posts runs
  delivers : ℕ → Event
  -- an operation of a session completes
  acts : ℕ → Strand.Event → Event

abbrev pub posts_of : List Effect → List (ℕ × Post)
posts_of [] = []
posts_of (close_session k ∷ rest) = (k, closes) ∷ posts_of rest
posts_of (connect_session k host port resource headers ∷ rest) =
    (k, connects host port resource headers) ∷ posts_of rest
posts_of (Effect.send k message ∷ rest) = (k, sends message) ∷ posts_of rest
posts_of (_ ∷ rest) = posts_of rest

-- The sessions that are made.
abbrev pub make_all : (ℕ → Strand) → List Effect → ℕ → Strand
make_all sessions [] = sessions
make_all sessions (create k is_ssl ∷ rest) = make_all (set sessions k (new_strand is_ssl)) rest
make_all sessions (_ ∷ rest) = make_all sessions rest

abbrev pub handler_of : Post → Strand.Event
handler_of (connects host port resource headers) = Strand.connect host port resource headers
handler_of (sends message) = Strand.send message
handler_of closes = Strand.close

-- The handler that `DoConnect` gave to session `k`, for what the session has reported.
abbrev pub hear : Client → ℕ → List Action → Client
hear c k [] = c
hear c k (complete ok ∷ rest) = hear (on_attempt c k ok).0 k rest
hear c k (_ ∷ rest) = hear c k rest

abbrev pub after : World → Client × List Effect → World
after w (c, effects) = record {
  client = c;
  sessions = make_all w.sessions effects;
  inbox = w.inbox ++ posts_of effects;
}

-- A handler of a session runs; the trace of the strand is then what it has reported.
abbrev pub clear : Strand → Strand
clear t = record t { trace = [] }

abbrev pub ran : World → ℕ → Option Strand → Option World
ran w k none = none
ran w k (some u) =
    some (record w { client = hear w.client k u.trace; sessions = set w.sessions k u })

abbrev pub is_open_in : World → ℕ → Bool
is_open_in w k = (w.sessions k).session.is_open

-- One event; `none` is undefined behaviour in a session, or an operation that its stream cannot take.
pub step : World → Event → Option World
unfolding async_connect send_message close shut_down on_attempt
step w (opens host port resource) = some (after w (async_connect w.client host port resource))
step w (submits message) = some (after w (w.client, send_message (is_open_in w) w.client message))
step w closes_current = some (after w (w.client, close w.client))
step w shuts_down = some (after w (shut_down w.client))
step w (delivers n) = elim (pick n w.inbox) [
  | none ↦ some w
  | some ((k, p), rest) ↦
      ran (record w { inbox = rest }) k (fire (clear (w.sessions k)) (handler_of p))
]
step w (acts k e) = ran w k (fire (clear (w.sessions k)) e)

-- An operation completes: no post runs by itself.
abbrev pub is_completion : Strand.Event → Bool
is_completion (Strand.connect host port resource headers) = false
is_completion (Strand.send message) = false
is_completion Strand.close = false
is_completion _ = true

abbrev pub Enabled : World → Event → Type 0
Enabled w (acts k e) = (is_completion e ≡ true) × Strand.Enabled (w.sessions k) e
Enabled w _ = Unit

-- A new client, with no session made.
pub record IsNew (w : World) : Type 0 where
  pub settings : ClientSettings
  pub client_is_new : w.client ≡ new_client settings
  pub sessions_are_new : w.sessions ≡ (λ k. new_strand false)
  pub nothing_posted : w.inbox ≡ []

pub data Reach : World → Type 0 where
  here : {w : World} → IsNew w → Reach w
  next : {w v : World} (e : Event) → Reach w → Enabled w e → step w e ≡ some v → Reach v

-- The session is open, or its connection is still being made.
abbrev pub is_live : Strand → Bool
is_live t = t.session.is_open || (t.unstarted || making t)

-- The attempt is reported to have failed.
abbrev pub gives_up : List Action → Bool
gives_up [] = false
gives_up (complete ok ∷ rest) = not ok || gives_up rest
gives_up (_ ∷ rest) = gives_up rest
