-- ===== src/Http/Connection/Starts.antt =====
-- What `OnRead` of `CHttpConnection` starts.
use websockets.Prelude.{ℕ, List, [], ◌∷◌, Option, none, some, if_elim, Option-cases, inl, inr}
use websockets.Server.{Server}
use websockets.Target.{parse_target}
use websockets.Server.Routing.{upgrade_allowed, find_http_handler}
use websockets.Server.Clients.{take_connection_id}
use websockets.Http.Wrapper.{HttpWrapper}
use websockets.Http.Connection.{
  ErrorCode, success, end_of_stream, operation_aborted, timeout, other, fails, HttpRequest,
  HttpResponse, Action, async_write, accept_session, post_request, log_unexpected, on_read,
  handle_upgrade, handle_http_request, read_log, log_unexpected_error,
}

-- What a read starts: at most one thing, and no second read.
abbrev pub Starts : List Action → Type 0
Starts [] = Unit
Starts (async_write r ∷ []) = Unit
Starts (post_request handler wrapper ∷ []) = Unit
Starts (accept_session request ∷ []) = Unit
Starts (log_unexpected ∷ []) = Unit
Starts _ = ⊥

upgrade-Starts : (s : Server) (r : HttpRequest) → Starts (handle_upgrade s r)
unfolding handle_upgrade
upgrade-Starts s r = elim (Option-cases (parse_target r.target)) [
  | inl e ↦ rw (e, handle_upgrade) tt
  | inr ((path, ignored), e) ↦
      rw (e, handle_upgrade) (if_elim Starts (upgrade_allowed s path) (λ _. tt) (λ _. tt))
]

handler-Starts :
    (found : Option ℕ) (s : Server) (refuse : HttpResponse) (w : HttpWrapper)
    → Starts
        (elim found as (λ _. Server × List Action) [
          | none ↦ (s, async_write refuse ∷ [])
          | some handler ↦ (s, post_request handler w ∷ [])
        ]).1
handler-Starts none s refuse w = tt
handler-Starts (some h) s refuse w = tt

request-Starts : (s : Server) (r : HttpRequest) → Starts (handle_http_request s r).1
unfolding handle_http_request
request-Starts s r = elim (Option-cases (parse_target r.target)) [
  | inl e ↦ rw (e, handle_http_request) tt
  | inr ((path, parameters), e) ↦
      rw (e, handle_http_request)
        (handler-Starts (find_http_handler (take_connection_id s).0 path) _ _ _)
]

read_log-Starts : (ec : ErrorCode) → Starts (read_log ec)
unfolding log_unexpected_error
read_log-Starts success = tt
read_log-Starts end_of_stream = tt
read_log-Starts operation_aborted = tt
read_log-Starts timeout = tt
read_log-Starts other = tt

pub read-Starts : (s : Option Server) (ec : ErrorCode) (r : HttpRequest) → Starts (on_read s ec r).1
unfolding on_read
read-Starts none ec r = tt
read-Starts (some s) ec r =
    if_elim (λ (p : Option Server × List Action). Starts p.1) (fails ec) (λ _. read_log-Starts ec)
      (λ _.
        if_elim (λ (p : Option Server × List Action). Starts p.1) r.is_upgrade
          (λ _. upgrade-Starts s r) (λ _. request-Starts s r))
