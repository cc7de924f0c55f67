-- ===== src/Examples/EchoServer/Status.antt =====
-- The answer to a request within /api.
use websockets.Prelude.{
  ◌≡◌, refl, subst, Bool, true, false, some, List, [], ◌∷◌, ◌==◌, if◌then◌else◌, is_empty,
}
use websockets.Text.{Text, codes, text_eq}
use websockets.Assoc.{lookup, insert, text_key}
use websockets.Target.{parse_target, uri_matches, Parameters}
use websockets.Server.{Server, new_server}
use websockets.Server.Routing.{longest_uri_match, longest_from, uri_handler, find_http_handler}
use websockets.Server.Clients.{add_uri, take_connection_id}
use websockets.Http.{HttpMsg}
use websockets.Http.Wrapper.{
  HttpWrapper, replies, runs, lifetime, interleave, answer, sent_replied, Delivers,
  Delivers-lifetime, fresh_wrapper, fresh_exchange,
}
use websockets.Http.Connection.{
  success, HttpRequest, HttpResponse, async_write, post_request, on_read, handle_http_request,
  send_response, request_message,
}
use websockets.Examples.EchoServer.{prepared, status_body, answers}

-- The response with the status, in the request's version and connection.
abbrev pub status_response : HttpRequest → HttpResponse
status_response request = record {
  version = if request.version == 0 then 11 else request.version;
  status = 200;
  reason = codes "OK";
  keep_alive = request.keep_alive;
  content_type =
      if is_empty request.content_type then codes "application/json" else request.content_type;
  body = status_body;
}

finds_status :
    (s : Server) (path : Text)
    → s.uris ≡ prepared.uris
    → uri_matches (codes "/api") path ≡ true
    → find_http_handler s path ≡ some 4
unfolding find_http_handler longest_uri_match longest_from uri_handler prepared add_uri lookup
    insert new_server text_eq
finds_status s path same within = rw (same, within) refl

status_posted :
    (s : Server) (request : HttpRequest) (path : Text) (parameters : Parameters)
    → s.uris ≡ prepared.uris
    → parse_target request.target ≡ some (path, parameters)
    → uri_matches (codes "/api") path ≡ true
    → (handle_http_request s request).1
      ≡ post_request 4
          (fresh_wrapper (request_message request path parameters s.next_connection_id))
        ∷ []
unfolding handle_http_request take_connection_id
status_posted s request path parameters same parsed within =
    rw (parsed, handle_http_request, finds_status (take_connection_id s).0 path same within) refl

with_status : HttpMsg → HttpMsg
with_status msg = record msg { body = status_body }

-- The message has its body before the strand can send it.
sent_replied-chances :
    (msg : HttpMsg) (chances : List Bool)
    → sent_replied msg (interleave chances []) (runs ∷ []) ≡ some msg
sent_replied-chances msg [] = refl
sent_replied-chances msg (true ∷ chances) = refl
sent_replied-chances msg (false ∷ chances) = sent_replied-chances msg chances

answer-replies :
    (msg : HttpMsg) (chances : List Bool)
    → answer msg (interleave chances (replies ∷ [])) (runs ∷ []) ≡ some msg
answer-replies msg [] = refl
answer-replies msg (true ∷ chances) = answer-replies msg chances
answer-replies msg (false ∷ chances) = sent_replied-chances msg chances

answer-answers :
    (msg : HttpMsg) (chances : List Bool)
    → answer msg (interleave chances answers) (runs ∷ []) ≡ some (with_status msg)
unfolding answers with_status
answer-answers msg [] = refl
answer-answers msg (true ∷ chances) = answer-answers msg chances
answer-answers msg (false ∷ chances) = answer-replies (with_status msg) chances

lifetime-answers :
    (msg : HttpMsg) (chances : List Bool)
    → (lifetime (fresh_exchange msg) (interleave chances answers) (runs ∷ [])).sent
      ≡ with_status msg ∷ []
lifetime-answers msg chances =
    let uses = interleave chances answers in
    (subst (Delivers (lifetime (fresh_exchange msg) uses (runs ∷ []))) (answer-answers msg chances)
      (Delivers-lifetime msg uses (runs ∷ []))).0

-- A request that is no upgrade, with a path within /api, is posted to the program's callback, and
-- what the callback makes of it is one response, whenever the strand runs: 200 with the status as
-- its body.
pub status_answered :
    (s : Server) (request : HttpRequest) (path : Text) (parameters : Parameters)
    (chances : List Bool)
    → s.uris ≡ prepared.uris
    → request.is_upgrade ≡ false
    → parse_target request.target ≡ some (path, parameters)
    → uri_matches (codes "/api") path ≡ true
    → (wrapper : HttpWrapper) × ((on_read (some s) success request).1 ≡ post_request 4 wrapper ∷ [])
      × (msg : HttpMsg) × ((lifetime
            (record { wrapper = wrapper; posted = 0; sent = [] })
            (interleave chances answers)
            (runs ∷ [])).sent
          ≡ msg ∷ [])
      × (send_response msg ≡ async_write (status_response request) ∷ [])
unfolding on_read send_response with_status request_message
status_answered s request path parameters chances same plain parsed within =
    let msg = request_message request path parameters s.next_connection_id in
    (
      fresh_wrapper msg,
      rw plain (status_posted s request path parameters same parsed within),
      with_status msg,
      lifetime-answers msg chances,
      refl,
    )
