-- ===== src/Server/Clients.antt =====
-- The life of clients in `CWebsocketServer::CImpl`: start and stop, registration, removal, the
-- counts for each uri, and the callbacks that tell of them.
pub mod Counts
pub mod Invariant
use websockets.Prelude.{
  ℕ, ◌+◌, ◌-◌, ◌%◌, ◌^◌, ◌≡◌, Bool, true, false, ◌&&◌, ◌||◌, not, Option, none, some, List, [], ◌∷◌,
  ◌++◌, ◌==◌, if◌then◌else◌, is_empty, map,
}
use websockets.Text.{Text}
use websockets.Assoc.{Assoc, lookup, insert, erase, text_key, nat_key, keys}
use websockets.Target.{target_path}
use websockets.Server.{
  Server, Handler, ClientCallbacks, UriCallbacks, ClientEntry, Call, added, closed,
  connection_change, Effect, post, invoke, close_session, close_acceptor, accept_next,
  stop_work_queue,
}
use websockets.Server.Routing.{longest_uri_match, uri_handler, append_base, uri_append}

-- A callback is posted if it is set.
abbrev pub post_if : Handler → (ℕ → Call) → List Effect
post_if none call = []
post_if (some h) call = post (call h ∷ []) ∷ []

abbrev pub invoke_if : Handler → (ℕ → Call) → List Effect
invoke_if none call = []
invoke_if (some h) call = invoke (call h) ∷ []

abbrev pub count_or_zero : Option ℕ → ℕ
count_or_zero none = 0
count_or_zero (some n) = n

-- `mUriCounts[uri]`, without making an entry.
abbrev pub uri_count : Assoc Text ℕ → Text → ℕ
uri_count counts uri = count_or_zero (lookup uri counts)

-- `mNextConnectionId++` on a uint32_t
abbrev pub next_id : ℕ → ℕ
next_id n = (n + 1) % 2 ^ 32

-- `++mUriCounts[uri]` on a size_t
abbrev pub incremented : Assoc Text ℕ → Text → ℕ
incremented counts uri = (uri_count counts uri + 1) % 2 ^ 64

-- `DecrementUriCountLocked`: the counts and the value that it returns.
pub decrement_uri_count : Text → Assoc Text ℕ → Assoc Text ℕ × ℕ
decrement_uri_count [] counts = (counts, 0)
decrement_uri_count (c ∷ cs) counts =
    let uri = c ∷ cs in
    elim (lookup uri counts) [
      | none ↦ (counts, 0)
      | some n ↦ if n == 0 then (counts, 0) else (insert uri (n - 1) counts, n - 1)
    ]

-- The counts after a client of the uri is registered, under the lock.
abbrev pub count_client : Text → Assoc Text ℕ → Assoc Text ℕ
count_client matched counts =
    if is_empty matched then counts else insert matched (incremented counts matched) counts

-- The part of `RegisterWsClient` under the lock.
unfoldable pub register_locked : Server → ℕ → Text → Bool → Server
register_locked s session matched is_ssl = record s {
  next_connection_id = next_id s.next_connection_id;
  clients =
      insert s.next_connection_id (record { session = session; uri = matched; is_ssl = is_ssl })
        s.clients;
  uri_counts = count_client matched s.uri_counts;
}

-- The connection-change callback of a uri; "" has none.
abbrev pub change_handler : Assoc Text UriCallbacks → Text → Handler
change_handler uris uri =
    if is_empty uri then none else uri_handler (λ c. c.on_connection_change) uris uri

abbrev pub is_some : {A : Type 0} → Option A → Bool
is_some none = false
is_some (some a) = true

-- `RegisterWsClient`: the new state, the client id, and the callbacks that are posted.
unfoldable pub register_ws_client : Server → ℕ → Text → Bool → Server × ℕ × List Effect
unfolding register_locked
register_ws_client s session target is_ssl =
    let path = target_path target in
    let matched = longest_uri_match s.uris path in
    let append = uri_append (append_base s matched path) target in
    let change = change_handler s.uris matched in
    if s.shutdown || not (is_some s.acceptor) then (s, 0, []) else (
      register_locked s session matched is_ssl,
      s.next_connection_id,
      post_if s.client_cbs.on_client_added (λ h. added h s.next_connection_id append is_ssl)
          ++ post_if change (λ h. connection_change h (incremented s.uri_counts matched)),
    )

-- A client leaves the map, and its uri's count falls: what `OnWsClosed` and `RemoveClient` do
-- under the lock.
unfoldable pub release_client : Server → ℕ → ClientEntry → Server
release_client s id entry = record s {
  clients = erase id s.clients;
  uri_counts = (decrement_uri_count entry.uri s.uri_counts).0;
}

-- `OnWsClosed`
unfoldable pub on_ws_closed : Server → ℕ → Server × List Effect
unfolding release_client
on_ws_closed s id = elim (lookup id s.clients) [
  | none ↦ (s, [])
  | some entry ↦ (
    release_client s id entry,
    post_if s.client_cbs.on_client_closed (λ h. closed h id)
        ++ post_if (change_handler s.uris entry.uri)
            (λ h. connection_change h (decrement_uri_count entry.uri s.uri_counts).1),
  )
]

-- `NotifyClosedSync`: the callbacks are called in the calling thread.
unfoldable pub notify_closed_sync : Server → ℕ → Text → List Effect
notify_closed_sync s id uri =
    invoke_if s.client_cbs.on_client_closed (λ h. closed h id)
    ++ invoke_if (change_handler s.uris uri) (λ h. connection_change h (uri_count s.uri_counts uri))

-- `RemoveClient`
unfoldable pub remove_client : Server → ℕ → Server × List Effect
unfolding release_client notify_closed_sync
remove_client s id = elim (lookup id s.clients) [
  | none ↦ (s, [])
  | some entry ↦
      let s' = release_client s id entry in
      (s', close_session entry.session ∷ notify_closed_sync s' id entry.uri)
]

-- The part of `Stop` under the lock.
unfoldable pub stop_locked : Server → Server
stop_locked s = record s { acceptor = none; port = 0; clients = []; uri_counts = [] }

abbrev pub close_all : Assoc ℕ ClientEntry → List Effect
close_all [] = []
close_all ((id, entry) ∷ rest) = close_session entry.session ∷ close_all rest

abbrev pub notify_all : Server → Assoc ℕ ClientEntry → List Effect
notify_all s [] = []
notify_all s ((id, entry) ∷ rest) = notify_closed_sync s id entry.uri ++ notify_all s rest

abbrev pub close_acceptor_of : Option ℕ → List Effect
close_acceptor_of none = []
close_acceptor_of (some a) = close_acceptor a ∷ []

-- `Stop`
unfoldable pub stop : Server → Server × List Effect
unfolding stop_locked notify_closed_sync
stop s =
    let s' = stop_locked s in
    (s', close_acceptor_of s.acceptor ++ (close_all s.clients ++ notify_all s' s.clients))

-- `Shutdown`, which only the first call runs.
unfoldable pub shut_down : Server → Server × List Effect
unfolding stop
shut_down s =
    let (s', effects) = stop (record s { shutdown = true }) in
    if s.shutdown then (s, []) else (s', effects ++ stop_work_queue ∷ [])

pub data StartError : Type 0 where
  is_shut_down cannot_listen already_started : StartError

pub data StartResult : Type 0 where
  started : Server → List Effect → StartResult
  failed : StartError → StartResult

-- The part of `Start` under the lock.
unfoldable pub start_locked : Server → ℕ → ℕ → ClientCallbacks → Server
start_locked s acceptor port cbs = record s {
  acceptor = some acceptor;
  port = port;
  client_cbs = cbs;
}

-- `Start`. `bound` is the outcome of opening, binding and listening: the local port, or an error.
unfoldable pub start : Server → ℕ → Option ℕ → ClientCallbacks → StartResult
unfolding start_locked
start s acceptor bound cbs = if s.shutdown then failed is_shut_down else elim bound [
  | none ↦ failed cannot_listen
  | some port ↦
      if is_some s.acceptor
      then failed already_started
      else started (start_locked s acceptor port cbs) (accept_next acceptor ∷ [])
]

-- `AddUri` and `RemoveUri`
unfoldable pub add_uri : Server → Text → UriCallbacks → Server
add_uri s uri cbs = record s { uris = insert uri cbs s.uris }

unfoldable pub remove_uri : Server → Text → Server
remove_uri s uri = record s { uris = erase uri s.uris }

-- `NextConnectionId`
unfoldable pub take_connection_id : Server → Server × ℕ
take_connection_id s =
    (record s { next_connection_id = next_id s.next_connection_id }, s.next_connection_id)
