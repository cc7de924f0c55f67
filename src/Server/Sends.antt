-- ===== src/Server/Sends.antt =====
-- Sending from `CWebsocketServer::CImpl`: to one client, to all of them or to those of a uri, with
-- the delayed forms and the queries of `CWebsocketServer`.
pub mod Reach
pub mod Delayed
use websockets.Prelude.{
  ℕ, Bool, true, false, not, Option, none, some, List, [], ◌∷◌, ltb, if◌then◌else◌, is_empty, map,
}
use websockets.Text.{Text, text_eq}
use websockets.Assoc.{Assoc, lookup, insert, nat_key, text_key}
use websockets.Payload.{Payload}
use websockets.Server.{Server, ClientEntry, Effect, send, log_not_connected}

-- `SendToClient`
unfoldable pub send_to_client : Server → ℕ → Payload → List Effect
send_to_client s id payload = elim (lookup id s.clients) [
  | none ↦ log_not_connected id ∷ []
  | some entry ↦ send entry.session payload ∷ []
]

-- `!uri || entry.second.uri == *uri`
abbrev pub selected : Option Text → ClientEntry → Bool
selected none entry = true
selected (some uri) entry = text_eq entry.uri uri

-- The sessions that `Broadcast` collects under the lock.
pub sessions_for : Option Text → Assoc ℕ ClientEntry → List ℕ
sessions_for uri [] = []
sessions_for uri ((id, entry) ∷ m) =
    let rest = sessions_for uri m in if selected uri entry then entry.session ∷ rest else rest

abbrev pub send_all : Payload → List ℕ → List Effect
send_all payload = map (λ session. send session payload)

-- `Broadcast`
unfoldable pub broadcast : Server → Option Text → Payload → List Effect
unfolding sessions_for
broadcast s uri payload = send_all payload (sessions_for uri s.clients)

abbrev positive : Option ℕ → Bool
positive none = false
positive (some n) = ltb 0 n

-- `AnyClients`
unfoldable pub any_clients : Server → Option Text → Bool
any_clients s none = not (is_empty s.clients)
any_clients s (some uri) = positive (lookup uri s.uri_counts)

-- `SendContent` and `SendMessage` with a function that fills the payload. The lock is released
-- between the test and the broadcast: `checked` is the state at the test, `current` the one at
-- the broadcast. The first result says whether the function was called.
unfoldable pub send_delayed :
    (checked current : Server)
    → Option Text
    → (Text → Payload)
    → Option (Text → Text)
    → Bool × List Effect
unfolding any_clients broadcast
send_delayed checked current uri make none = (false, [])
send_delayed checked current uri make (some fill) =
    if any_clients checked uri then (true, broadcast current uri (make (fill []))) else (false, [])

-- `GetConnectedClientIds`
get_connected_client_ids : Assoc ℕ ClientEntry → Assoc ℕ Bool
get_connected_client_ids [] = []
get_connected_client_ids ((id, entry) ∷ m) = (id, entry.is_ssl) ∷ get_connected_client_ids m
