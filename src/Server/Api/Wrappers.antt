-- ===== src/Server/Api/Wrappers.antt =====
-- The life of a `CUriWrapper`.
use websockets.Prelude.{
  ◌≡◌, ◌≢◌, ◌↔◌, inl, inr, refl, ap, ◌∙◌, Bool, true, false, none, some, List, [], ◌∷◌, All,
  Bool-cases,
}
use websockets.Text.{Text, text_eq}
use websockets.Assoc.{lookup, text_key}
use websockets.Assoc.Laws.{IsFresh-lookup}
use websockets.Assoc.Erase.{erase-insert_other, erase-erase_other, erase-insert_fresh}
use websockets.Server.{Server, UriCallbacks}
use websockets.Server.Clients.{add_uri, remove_uri}
use websockets.Payload.{text}
use websockets.Server.Clients.Invariant.{WellFormed}
use websockets.Server.Sends.Delayed.{any_clients_iff}
use websockets.Server.Api.{
  UriWrapper, wrapper_clients_connected, wrapper_send_message, clients_connected, send_message_uri,
  open_wrapper, close_wrapper,
}

-- A change of the registered uris.
pub data UriChange : Type 0 where
  adds : Text → UriCallbacks → UriChange
  removes : Text → UriChange

abbrev uri_of : UriChange → Text
uri_of (adds uri cbs) = uri
uri_of (removes uri) = uri

pub change : Server → UriChange → Server
unfolding add_uri remove_uri
change s (adds uri cbs) = add_uri s uri cbs
change s (removes uri) = remove_uri s uri

change_all : Server → List UriChange → Server
unfolding change
change_all s [] = s
change_all s (c ∷ cs) = change_all (change s c) cs

-- The changes are of other uris.
abbrev pub Spares : Text → List UriChange → Type 0
Spares uri cs = All (λ c. text_eq (uri_of c) uri ≡ false) cs

remove-change :
    (s : Server) (uri : Text) (c : UriChange)
    → text_eq (uri_of c) uri ≡ false
    → remove_uri (change s c) uri ≡ change (remove_uri s uri) c
unfolding change add_uri remove_uri
remove-change s uri (adds u cbs) n =
    ap (λ m. record s { uris = m }) (erase-insert_other uri u cbs s.uris n)
remove-change s uri (removes u) n =
    ap (λ m. record s { uris = m }) (erase-erase_other uri u s.uris n)

remove-change_all :
    (s : Server) (uri : Text) (cs : List UriChange)
    → Spares uri cs
    → remove_uri (change_all s cs) uri ≡ change_all (remove_uri s uri) cs
unfolding change_all
remove-change_all s uri [] n = refl
remove-change_all s uri (c ∷ cs) n =
    remove-change_all (change s c) uri cs n.1
    ∙ ap (λ s'. change_all s' cs) (remove-change s uri c n.0)

forgotten :
    (s : Server) (uri : Text) (cbs : UriCallbacks)
    → lookup uri s.uris ≡ none
    → remove_uri (add_uri s uri cbs) uri ≡ s
unfolding add_uri remove_uri
forgotten s uri cbs new =
    ap (λ m. record s { uris = m })
      (erase-insert_fresh uri cbs s.uris (IsFresh-lookup uri s.uris new))

-- A wrapper of a uri that was not registered leaves nothing behind: after any changes of other
-- uris during its life, the server is the one that these changes alone make.
wrapper_scope :
    (s : Server) (has_server : Bool) (uri : Text) (cbs : UriCallbacks) (cs : List UriChange)
    → lookup uri s.uris ≡ none
    → Spares uri cs
    → let (s', w) = open_wrapper s has_server uri cbs in
      close_wrapper (change_all s' cs) w ≡ change_all s cs
unfolding open_wrapper close_wrapper
wrapper_scope s false uri cbs cs new spares = refl
wrapper_scope s true uri cbs cs new spares =
    remove-change_all (add_uri s uri cbs) uri cs spares
    ∙ ap (λ s'. change_all s' cs) (forgotten s uri cbs new)

-- `ClientsConnected` of a wrapper holds exactly when its `SendMessage` sends something, if its uri
-- is not "".
wrapper_clients_connected_iff :
    (s : Server) (w : UriWrapper) (message : Text)
    → WellFormed s
    → w.uri ≢ []
    → (wrapper_clients_connected s w ≡ true) ↔ (wrapper_send_message s w message ≢ [])
unfolding wrapper_clients_connected wrapper_send_message clients_connected send_message_uri
wrapper_clients_connected_iff s w message v named = elim (Bool-cases w.has_server) [
  | inl e ↦ rw e (any_clients_iff s (some w.uri) (text message) v named)
  | inr e ↦ rw e ((λ h. cc), (λ h. absurd (h refl)))
]
