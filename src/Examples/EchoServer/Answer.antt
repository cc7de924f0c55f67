-- ===== src/Examples/EchoServer/Answer.antt =====
-- A message of a connected client is sent back.
use websockets.Prelude.{
  ℕ, ◌≡◌, refl, ap, Bool, true, false, some, List, [], ◌∷◌, ◌++◌, if◌then◌else◌, map,
}
use websockets.Text.{Text}
use websockets.Assoc.{lookup, nat_key}
use websockets.Payload.{Payload, text, content}
use websockets.Server.{Server, Call, message, received, ClientEntry}
use websockets.Server.Sends.{send_to_client}
use websockets.Server.Lifecycle.{calls_of}
use websockets.Server.Receive.{on_ws_message, on_ws_content, lookup_receive_callbacks}
use websockets.Session.{success, on_read}
use websockets.Session.Strand.{read_done}
use websockets.Service.{World, Post, sends, acts, sends_to, step, posts_of}
use websockets.Examples.EchoServer.{callbacks, sends_back}
use websockets.Examples.EchoServer.Runs.{posted, Runs}
use websockets.Examples.EchoServer.Posted.{Plain, receiver_unset}
use websockets.Examples.EchoServer.Echo.{Runs-Plain, Runs-Owned}

abbrev pub read_as : Bool → Text → Payload
read_as got_text m = if got_text then text m else content m

-- The one call that a read posts.
abbrev call_for : Bool → ℕ → Text → Call
call_for got_text id m = if got_text then message 2 id m else received 3 id m

module _ (s : Server) (plain : Plain s.uris) (set_up : s.client_cbs ≡ callbacks) (id : ℕ)
    (m : Text) where
  message_call : calls_of (on_ws_message s id m ++ []) ≡ message 2 id m ∷ []
  unfolding on_ws_message lookup_receive_callbacks
  message_call =
      rw (set_up, receiver_unset s plain id m (λ c. c.on_client_message_received) plain.messages)
        refl

  content_call : calls_of (on_ws_content s id m ++ []) ≡ received 3 id m ∷ []
  unfolding on_ws_content lookup_receive_callbacks
  content_call =
      rw (set_up, receiver_unset s plain id m (λ c. c.on_client_content_received) plain.contents)
        refl

read_call :
    (w : World) (k : ℕ) (b : Bool) (m : Text)
    → Plain w.server.uris
    → w.server.client_cbs ≡ callbacks
    → posted w (acts k (read_done success b m))
      ≡ (k, call_for b (w.sessions k).session.client_id m) ∷ []
unfolding on_read
read_call w k true m plain set_up =
    ap (map (λ c. (k, c))) (message_call w.server plain set_up (w.sessions k).session.client_id m)
read_call w k false m plain set_up =
    ap (map (λ c. (k, c))) (content_call w.server plain set_up (w.sessions k).session.client_id m)

call_sends : (b : Bool) (id : ℕ) (m : Text) → sends_back (call_for b id m) ≡ some (id, read_as b m)
unfolding sends_back
call_sends true id m = refl
call_sends false id m = refl

-- The message goes to the session of the client, if it is connected.
posts_back :
    (s : Server) (id k : ℕ) (entry : ClientEntry) (p : Payload)
    → lookup id s.clients ≡ some entry
    → entry.session ≡ k
    → posts_of (send_to_client s id p) ≡ (k, sends p) ∷ []
unfolding send_to_client
posts_back s id k entry p found its = rw (found, send_to_client, its) refl

-- Once the echo server has started, a text or bytes that a session reads are posted to the work
-- queue as one call of the program's callback, which sends the same payload to the id that the
-- session has.
pub read_is_posted :
    {w : World} {queue : List (ℕ × Call)} {log : List (ℕ × Post)} (k : ℕ) (got_text : Bool)
    (m : Text)
    → Runs w queue log
    → w.server.client_cbs ≡ callbacks
    → (c : Call) × (posted w (acts k (read_done success got_text m)) ≡ (k, c) ∷ [])
      × (sends_back c ≡ some ((w.sessions k).session.client_id, read_as got_text m))
read_is_posted {w} k got_text m r set_up =
    let id = (w.sessions k).session.client_id in
    (
      call_for got_text id m,
      read_call w k got_text m (Runs-Plain r) set_up,
      call_sends got_text id m,
    )

-- When a callback of the echo server is the first in the work queue and the client that it sends
-- to is still connected, the payload is posted to the session that the callback's message came
-- from, whatever has happened in between.
pub reply_reaches_reader :
    {w : World} {queue : List (ℕ × Call)} {log : List (ℕ × Post)} (k : ℕ) (c : Call) (id : ℕ)
    (p : Payload) (entry : ClientEntry)
    → Runs w ((k, c) ∷ queue) log
    → sends_back c ≡ some (id, p)
    → lookup id w.server.clients ≡ some entry
    → step w (sends_to id p) ≡ some (record w { inbox = w.inbox ++ (k, sends p) ∷ [] })
unfolding step
reply_reaches_reader {w} k c id p entry r sent found =
    let its = ((Runs-Owned r).0 id p sent).1 entry found in
    ap (λ l. some (record w { inbox = w.inbox ++ l })) (posts_back w.server id k entry p found its)
