-- ===== src/Examples/EchoClient.antt =====
-- examples/echo_client.cpp: a client that connects, sends a text and four bytes, and closes. The
-- program's arguments are those after its name.
use websockets.Prelude.{ℕ, Bool, true, false, Option, none, some, List, [], ◌∷◌, ◌++◌, length}
use websockets.Text.{Text, codes}
use websockets.Client.Impl.{
  Client, Call, connected, disconnected, message, received, Effect, Wait, close,
}
use websockets.Client.Api.{
  construct, destroy, connect_to, send_text, send_content, register_connect_callback,
  register_disconnect_callback, register_message_callback, register_content_callback,
}
use websockets.Examples.{Output, words, number, stoul}

-- The host, the port and the resource.
target_of : List Text → Option (Text × ℕ × Text)
unfolding stoul
target_of [] = some (codes "127.0.0.1", 8080, codes "/")
target_of (host ∷ []) = some (host, 8080, codes "/")
target_of (host ∷ port ∷ []) = elim (stoul port) [
  | none ↦ none
  | some n ↦ some (host, n, codes "/")
]
target_of (host ∷ port ∷ resource ∷ rest) = elim (stoul port) [
  | none ↦ none
  | some n ↦ some (host, n, resource)
]

-- The client with its four callbacks.
pub prepared : Client
unfolding construct register_connect_callback register_disconnect_callback register_message_callback
    register_content_callback
prepared =
    register_content_callback
      (register_message_callback
        (register_disconnect_callback (register_connect_callback (construct none) (some 0))
          (some 1))
        (some 2))
      (some 3)

-- What a callback prints.
pub prints : Call → List Output
prints (connected h) = words (codes "connected\n") ∷ []
prints (disconnected h) = words (codes "disconnected\n") ∷ []
prints (message h m) = words (codes "received text: ") ∷ words m ∷ words (codes "\n") ∷ []
prints (received h bytes) =
    words (codes "received binary: ") ∷ number (length bytes) ∷ words (codes " bytes\n") ∷ []

-- `main` up to the outcome of `Connect`: an exception of `stoul` that nobody catches, a return
-- code after a failure, or a client that is connected.
pub data Launch : Type 0 where
  terminates : Launch
  returns : ℕ → Client → List Effect → List Output → Launch
  connects : Client → List Effect → Launch

abbrev connected_up : Text → ℕ → Text → Client × Bool × List Effect → Launch
connected_up host port resource (c, true, effects) = connects c effects
connected_up host port resource (c, false, effects) = returns 1 c effects (
    words (codes "failed to connect to ")
    ∷ words host
    ∷ words (codes ":")
    ∷ number port
    ∷ words resource
    ∷ words (codes "\n")
    ∷ [])

pub launch : List Text → Wait → Launch
unfolding connect_to prepared target_of
launch args wait = elim (target_of args) [
  | none ↦ terminates
  | some (host, port, resource) ↦
      connected_up host port resource (connect_to prepared host port resource wait)
]

-- The two sends; the client and its sessions may change between them.
greets : (ℕ → Bool) → Client → (ℕ → Bool) → Client → List Effect
unfolding send_text send_content
greets is_open c is_open' c' =
    send_text is_open c (codes "hello over websocket")
    ++ send_content is_open' c' (222 ∷ 173 ∷ 190 ∷ 239 ∷ [])

-- `Close`, and the destructor of the client at the end of `main`.
pub finish : Client → Client → Client × List Effect
unfolding close destroy
finish c c' = let (gone, effects) = destroy c' in (gone, close c ++ effects)
