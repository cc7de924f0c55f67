-- ===== src/Examples/EchoServer/Runs.antt =====
-- The echo server with its sessions: what they read is posted to the work queue, whose thread runs
-- the callbacks in order; these send back.
use websockets.Prelude.{ℕ, ◌≡◌, none, some, List, [], ◌∷◌, ◌++◌, map}
use websockets.Payload.{Payload}
use websockets.Server.{Server, Call, Effect}
use websockets.Server.Lifecycle.{calls_of}
use websockets.Server.Receive.{on_ws_message, on_ws_content}
use websockets.Session.{Outcome, Action, on_message, on_content, on_read}
use websockets.Session.Strand.{read_done}
use websockets.Service.{
  World, Event, Post, acts, starts, sends_to, broadcasts, adds_uri, removes_uri, step, Enabled,
  IsNew,
}
use websockets.Service.Order.{InOrder, fresh_posts, Ordered}
use websockets.Service.Order as Order
use websockets.Examples.EchoServer.{callbacks, api_callbacks, sends_back}

-- What the server does with the messages that a session reports.
abbrev pub told : Server → List Action → List Effect
told s [] = []
told s (on_message id m ∷ rest) = on_ws_message s id m ++ told s rest
told s (on_content id m ∷ rest) = on_ws_content s id m ++ told s rest
told s (_ ∷ rest) = told s rest

abbrev pub reports : Outcome → List Action
reports none = []
reports (some (s, actions)) = actions

-- The calls that an event posts for what it has read, each with the session that it comes from.
abbrev pub posted : World → Event → List (ℕ × Call)
posted w (acts k (read_done ec got_text m)) =
    map (λ c. (k, c))
      (calls_of (told w.server (reports (on_read (w.sessions k).session ec got_text m))))
posted w _ = []

-- What the program and its clients cause, the sends of the callbacks aside.
abbrev pub Occurs : Event → Type 0
Occurs (starts acceptor bound cbs) = cbs ≡ callbacks
Occurs (adds_uri uri cbs) = cbs ≡ api_callbacks
Occurs (removes_uri uri) = ⊥
Occurs (sends_to id payload) = ⊥
Occurs (broadcasts uri payload) = ⊥
Occurs _ = Unit

-- A run, with the calls that wait in the work queue and all posts that were made to sessions. The
-- callbacks for clients that come and go only print, and are left out of the queue.
pub data Runs : World → List (ℕ × Call) → List (ℕ × Post) → Type 0 where
  here : {w : World} → IsNew w → Runs w [] []
  occurs :
      {w v : World} {queue : List (ℕ × Call)} {log : List (ℕ × Post)} (e : Event)
      → Runs w queue log
      → Occurs e
      → Enabled w e
      → InOrder w e
      → step w e ≡ some v
      → Runs v (queue ++ posted w e) (log ++ fresh_posts e w v)
  -- the first callback in the queue sends
  echoes :
      {w v : World} {queue : List (ℕ × Call)} {log : List (ℕ × Post)} (k : ℕ) (c : Call) (id : ℕ)
      (payload : Payload)
      → Runs w ((k, c) ∷ queue) log
      → sends_back c ≡ some (id, payload)
      → step w (sends_to id payload) ≡ some v
      → Runs v queue (log ++ fresh_posts (sends_to id payload) w v)
  -- it is a callback that does not, or the work queue is stopped and drops it
  passes :
      {w : World} {queue : List (ℕ × Call)} {log : List (ℕ × Post)} (k : ℕ) (c : Call)
      → Runs w ((k, c) ∷ queue) log
      → Runs w queue log

pub Runs-Ordered :
    {w : World} {queue : List (ℕ × Call)} {log : List (ℕ × Post)} → Runs w queue log → Ordered w log
Runs-Ordered (here n) = Order.here n
Runs-Ordered (occurs e r own enabled in_order stepped) =
    Order.next e (Runs-Ordered r) enabled in_order stepped
Runs-Ordered (echoes k c id payload r sends stepped) =
    Order.next (sends_to id payload) (Runs-Ordered r) tt tt stepped
Runs-Ordered (passes k c r) = Runs-Ordered r
