-- ===== src/Http/Connection/Upgrade.antt =====
-- Which requests a read of an http connection turns into a session, and what the read does to the
-- server.
use websockets.Prelude.{
  Whenever, ℕ, ◌≡◌, refl, sym, ◌∙◌, true, Option, none, some, List, [], ◌∷◌, Option-cases, inl, inr,
  if_elim, ◌⊎◌,
}
use websockets.Text.{Text}
use websockets.Assoc.{Assoc}
use websockets.Target.{parse_target}
use websockets.Server.{Server, ServerSettings, new_server}
use websockets.Server.Routing.{upgrade_allowed, find_http_handler}
use websockets.Server.Clients.{take_connection_id}
use websockets.Http.Wrapper.{HttpWrapper}
use websockets.Http.Connection.{
  ErrorCode, success, end_of_stream, operation_aborted, timeout, other, fails, HttpRequest,
  HttpResponse, Action, async_write, accept_session, post_request, on_read, handle_upgrade,
  handle_http_request, read_log, log_unexpected_error,
}

-- The request for which a session is made.
abbrev pub session_made : List Action → Option HttpRequest
session_made [] = none
session_made (accept_session request ∷ rest) = some request
session_made (_ ∷ rest) = session_made rest

-- The path of the target is one that the settings let upgrade.
pub record Allowed (settings : ServerSettings) (target : Text) : Type 0 where
  pub path : Text
  pub parameters : Assoc Text Text
  pub parsed : parse_target target ≡ some (path, parameters)
  pub allowed : upgrade_allowed (new_server settings) path ≡ true

pub allowed-settings :
    (s t : Server) (path : Text)
    → s.settings ≡ t.settings
    → upgrade_allowed s path ≡ upgrade_allowed t path
unfolding upgrade_allowed
allowed-settings s t path e = rw (e, upgrade_allowed) refl

-- A session is made for an allowed target only, and the server takes one id at most.
abbrev pub ReadBy : ServerSettings → Server → Option Server × List Action → Type 0
ReadBy settings s (s', actions) =
    Whenever (λ (r : HttpRequest). Allowed settings r.target) (session_made actions)
    × ((s' ≡ some s) ⊎ (s' ≡ some (take_connection_id s).0))

abbrev Makes : ServerSettings → List Action → Type 0
Makes settings actions =
    Whenever (λ (r : HttpRequest). Allowed settings r.target) (session_made actions)

module _ (settings : ServerSettings) (s : Server) (has : s.settings ≡ settings)
    (request : HttpRequest) where
  upgrade-Makes : Makes settings (handle_upgrade s request)
  unfolding handle_upgrade new_server
  upgrade-Makes = elim (Option-cases (parse_target request.target)) [
    | inl e ↦ rw (e, handle_upgrade) tt
    | inr ((path, ignored), e) ↦
        rw (e, handle_upgrade)
          (if_elim (Makes settings) (upgrade_allowed s path)
            (λ a. record {
              path = path;
              parameters = ignored;
              parsed = e;
              allowed = allowed-settings (new_server settings) s path (sym has) ∙ a;
            })
            (λ _. tt))
  ]

  abbrev Serves : Server × List Action → Type 0
  Serves (s', actions) = ReadBy settings s (some s', actions)

  handler-Serves :
      (found : Option ℕ) (refuse : HttpResponse) (w : HttpWrapper)
      → Serves (elim found as (λ _. Server × List Action) [
        | none ↦ ((take_connection_id s).0, async_write refuse ∷ [])
        | some handler ↦ ((take_connection_id s).0, post_request handler w ∷ [])
      ])
  handler-Serves none refuse w = (tt, inr refl)
  handler-Serves (some h) refuse w = (tt, inr refl)

  request-Serves : Serves (handle_http_request s request)
  unfolding handle_http_request
  request-Serves = elim (Option-cases (parse_target request.target)) [
    | inl e ↦ rw (e, handle_http_request) (tt, inl refl)
    | inr ((path, parameters), e) ↦
        rw (e, handle_http_request)
          (handler-Serves (find_http_handler (take_connection_id s).0 path) _ _)
  ]

  log-Makes : (ec : ErrorCode) → Makes settings (read_log ec)
  unfolding log_unexpected_error
  log-Makes success = tt
  log-Makes end_of_stream = tt
  log-Makes operation_aborted = tt
  log-Makes timeout = tt
  log-Makes other = tt

  pub on_read-ReadBy : (ec : ErrorCode) → ReadBy settings s (on_read (some s) ec request)
  unfolding on_read
  on_read-ReadBy ec =
      if_elim (ReadBy settings s) (fails ec) (λ _. (log-Makes ec, inl refl))
        (λ _.
          if_elim (ReadBy settings s) request.is_upgrade (λ _. (upgrade-Makes, inl refl))
            (λ _. request-Serves))
