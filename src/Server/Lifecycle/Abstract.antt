-- ===== src/Server/Lifecycle/Abstract.antt =====
-- What `CWebsocketServer::CImpl` does about its clients: an abstract server without counts,
-- ports or a machine word. Clients stand in the order of their admission, ids are never used
-- twice, and the number of clients on a uri is found by counting them.
pub mod View
pub mod Refines
pub mod Runs
use websockets.Prelude.{
  ℕ, ◌+◌, ◌≡◌, Bool, true, false, not, ◌||◌, Option, none, some, List, [], ◌∷◌, ◌++◌, if◌then◌else◌,
  is_empty,
}
use websockets.Text.{Text}
use websockets.Assoc.{Assoc, lookup, insert, erase, nat_key, text_key}
use websockets.Target.{target_path}
use websockets.Server.{
  Server, ServerSettings, ClientCallbacks, UriCallbacks, ClientEntry, Handler, Call, added, closed,
  connection_change, Effect, no_client_callbacks,
}
use websockets.Server.Routing.{longest_from, longest_uri_match, uri_append}
use websockets.Server.Clients.{change_handler}
use websockets.Server.Clients.Counts.{num_at}
use websockets.Server.Lifecycle.{
  Event, starts, stops, shuts_down, takes_id, registers, closes, removes, notifies, adds_uri,
  removes_uri, uris_of, pick,
}

pub record Registry : Type 0 where
  pub settings : ServerSettings
  pub has_ended : Bool
  pub listens : Bool
  pub next_id : ℕ
  pub client_cbs : ClientCallbacks
  pub clients : Assoc ℕ ClientEntry
  pub uris : Assoc Text UriCallbacks
  -- the notifications that are still to be made
  pub pending : List (ℕ × Text)
  pub chosen : List Call

pub new_registry : ServerSettings → Registry
new_registry settings = record {
  settings = settings;
  has_ended = false;
  listens = false;
  next_id = 1;
  client_cbs = no_client_callbacks;
  clients = [];
  uris = [];
  pending = [];
  chosen = [];
}

abbrev pub call_if : Handler → (ℕ → Call) → List Call
call_if none call = []
call_if (some h) call = call h ∷ []

-- The uri is told how many clients it has.
abbrev pub tell_uri : Registry → Text → List Call
tell_uri r uri =
    call_if (change_handler r.uris uri) (λ h. connection_change h (num_at uri r.clients))

-- A client is admitted last, under a new id.
abbrev pub admit : Registry → ℕ → Text → Bool → Registry
admit r session uri is_ssl = record r {
  next_id = r.next_id + 1;
  clients = r.clients ++ (r.next_id, record { session = session; uri = uri; is_ssl = is_ssl }) ∷ [];
}

abbrev pub says : Registry → List Call → Registry
says r calls = record r { chosen = r.chosen ++ calls }

abbrev pub is_taken : Option ℕ → Bool
is_taken none = false
is_taken (some port) = true

-- All clients leave, and their ends are to be told.
abbrev pub clear : Registry → Registry
clear r = record r { listens = false; clients = []; pending = r.pending ++ uris_of r.clients }

-- What the uriAppend leaves out of the target: the matched uri, or else the longest allowed one
-- that matches.
abbrev pub base_of : ServerSettings → Text → Text → Text
base_of settings matched path =
    if is_empty matched
    then elim settings.allowed_uris [
      | none ↦ matched
      | some allowed ↦ longest_from path allowed matched
    ]
    else matched

-- A client is admitted under the longest uri that it matches; it is to be announced, and its uri
-- to be told.
abbrev pub enter : Registry → ℕ → Text → Bool → Registry
enter r session target is_ssl =
    let path = target_path target in
    let matched = longest_uri_match r.uris path in
    let append = uri_append (base_of r.settings matched path) target in
    let r' = admit r session matched is_ssl in
    says r' (
      call_if r.client_cbs.on_client_added (λ h. added h r.next_id append is_ssl)
      ++ tell_uri r' matched)

-- The end of a client is told, and its uri is.
abbrev pub tell_end : Registry → ℕ → Text → Registry
tell_end r id uri =
    says r (call_if r.client_cbs.on_client_closed (λ h. closed h id) ++ tell_uri r uri)

abbrev pub without : Registry → ℕ → Registry
without r id = record r { clients = erase id r.clients }

pub perform : Registry → Event → Registry
perform r (starts acceptor bound cbs) =
    if r.has_ended || (r.listens || not (is_taken bound))
    then r
    else record r { listens = true; client_cbs = cbs }
perform r stops = clear r
perform r shuts_down = if r.has_ended then r else clear (record r { has_ended = true })
perform r takes_id = record r { next_id = r.next_id + 1 }
perform r (registers session target is_ssl) =
    if r.has_ended || not r.listens then r else enter r session target is_ssl
perform r (closes id) = elim (lookup id r.clients) [
  | none ↦ r
  | some entry ↦ tell_end (without r id) id entry.uri
]
perform r (removes id) = elim (lookup id r.clients) [
  | none ↦ r
  | some entry ↦ record (without r id) { pending = r.pending ++ (id, entry.uri) ∷ [] }
]
perform r (notifies n) = elim (pick n r.pending) [
  | none ↦ r
  | some ((id, uri), rest) ↦ record (tell_end r id uri) { pending = rest }
]
perform r (adds_uri uri cbs) = record r { uris = insert uri cbs r.uris }
perform r (removes_uri uri) = record r { uris = erase uri r.uris }

pub perform_all : Registry → List Event → Registry
unfolding perform
perform_all r [] = r
perform_all r (e ∷ es) = perform_all (perform r e) es
