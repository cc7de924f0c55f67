-- ===== src/Server/Routing.antt =====
-- URI routing of `CWebsocketServer::CImpl`: `LongestUriMatchLocked`, `UpgradeAllowed`,
-- `FindHttpHandler` and the base of `uriAppend` in `RegisterWsClient`.
pub mod Laws
pub mod Filter
pub mod Append
use websockets.Prelude.{
  ℕ, ◌≡◌, Bool, true, false, ◌&&◌, Option, none, some, List, [], ◌∷◌, ltb, if◌then◌else◌, length,
  is_empty, map, drop,
}
use websockets.Text.{Text}
use websockets.Assoc.{Assoc, lookup, text_key, keys}
use websockets.Target.{uri_matches}
use websockets.Server.{Server, Handler, UriCallbacks}

-- The loop over candidate uris, `best` so far: a later uri wins only if it is strictly longer.
unfoldable pub longest_from : Text → List Text → Text → Text
longest_from path [] best = best
longest_from path (uri ∷ uris) best =
    longest_from path uris
      (if uri_matches uri path && ltb (length best) (length uri) then uri else best)

-- `LongestUriMatchLocked`: the longest registered uri that the path lies within, or "".
unfoldable pub longest_uri_match : Assoc Text UriCallbacks → Text → Text
longest_uri_match uris path = longest_from path (keys uris) []

-- A callback of a registered uri; a uri that is not registered has none.
unfoldable pub uri_handler : (UriCallbacks → Handler) → Assoc Text UriCallbacks → Text → Handler
uri_handler field uris uri = elim (lookup uri uris) [ none ↦ none | some cbs ↦ field cbs ]

pub any_matches : List Text → Text → Bool
any_matches [] path = false
any_matches (allowed ∷ rest) path = if uri_matches allowed path then true else any_matches rest path

-- `UpgradeAllowed`
unfoldable pub upgrade_allowed : Server → Text → Bool
unfolding any_matches
upgrade_allowed s path = elim s.settings.allowed_uris [
  | none ↦ true
  | some allowed ↦ any_matches allowed path
]

-- `FindHttpHandler`
unfoldable pub find_http_handler : Server → Text → Handler
unfolding uri_handler longest_uri_match
find_http_handler s path =
    let matched = longest_uri_match s.uris path in
    if is_empty matched then none else uri_handler (λ c. c.on_request_received) s.uris matched

-- The text that `uriAppend` leaves out: the matched uri, or else the longest allowed one.
unfoldable pub append_base : Server → Text → Text → Text
unfolding longest_from
append_base s matched path =
    if is_empty matched
    then elim s.settings.allowed_uris [
      | none ↦ matched
      | some allowed ↦ longest_from path allowed matched
    ]
    else matched

abbrev pub min_length : Text → Text → ℕ
min_length a b = if ltb (length b) (length a) then length b else length a

-- `target.substr(std::min(base.size(), target.size()))`
pub uri_append : Text → Text → Text
uri_append base target = drop (min_length base target) target
