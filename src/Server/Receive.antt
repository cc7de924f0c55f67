-- ===== src/Server/Receive.antt =====
-- `OnWsMessage` and `OnWsContent` of `CWebsocketServer::CImpl`, with `LookupReceiveCallbacks`.
pub mod Delivery
use websockets.Prelude.{
  if◌then◌else◌, is_empty, Option, none, some, List, [], ◌∷◌, ◌++◌, ℕ, Bool, true, false,
}
use websockets.Text.{Text}
use websockets.Assoc.{lookup, nat_key}
use websockets.Server.{
  Server, Handler, ClientCallbacks, UriCallbacks, Call, message, received, Effect, post,
}
use websockets.Server.Routing.{uri_handler}

-- The callback of the uri that the client is on: none if it has left, or its uri is "" or is no
-- longer registered.
unfoldable pub uri_receiver : (UriCallbacks → Handler) → Server → ℕ → Handler
uri_receiver field s id = elim (lookup id s.clients) [
  | none ↦ none
  | some entry ↦ if is_empty entry.uri then none else uri_handler field s.uris entry.uri
]

-- `LookupReceiveCallbacks`: the callback for all clients and the one of the uri.
unfoldable pub lookup_receive_callbacks :
    (ClientCallbacks → Handler) → (UriCallbacks → Handler) → Server → ℕ → Handler × Handler
unfolding uri_receiver
lookup_receive_callbacks global_field uri_field s id =
    (global_field s.client_cbs, uri_receiver uri_field s id)

abbrev pub call_if : Handler → (ℕ → Call) → List Call
call_if none call = []
call_if (some h) call = call h ∷ []

-- Both calls are one entry of the workqueue, and there is none if both callbacks are empty.
abbrev pub post_both : Handler × Handler → (ℕ → Call) → List Effect
post_both (none, none) call = []
post_both (global_cb, uri_cb) call = post (call_if global_cb call ++ call_if uri_cb call) ∷ []

unfoldable pub on_ws_message : Server → ℕ → Text → List Effect
unfolding lookup_receive_callbacks
on_ws_message s id m =
    post_both
      (lookup_receive_callbacks (λ c. c.on_client_message_received)
        (λ c. c.on_client_message_received) s id)
      (λ h. message h id m)

unfoldable pub on_ws_content : Server → ℕ → Text → List Effect
unfolding lookup_receive_callbacks
on_ws_content s id content =
    post_both
      (lookup_receive_callbacks (λ c. c.on_client_content_received)
        (λ c. c.on_client_content_received) s id)
      (λ h. received h id content)
