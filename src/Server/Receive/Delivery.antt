-- ===== src/Server/Receive/Delivery.antt =====
-- Whom a message or a content of a client is delivered to.
use websockets.Prelude.{
  ==_refl, ◌≡◌, refl, ap, ◌∙◌, none, some, ◌++◌, ℕ, Bool, false, arith, if◌then◌else◌, is_empty,
}
use websockets.Text.{Text}
use websockets.Assoc.{lookup, insert, nat_key}
use websockets.Assoc.Laws.{lookup-insert}
use websockets.Target.{target_path}
use websockets.Server.{Server, Handler, UriCallbacks, ClientEntry, Call, message}
use websockets.Server.Routing.{longest_uri_match, uri_handler}
use websockets.Server.Clients.{register_ws_client, register_locked}
use websockets.Server.Lifecycle.{calls_of}
use websockets.Server.Receive.{
  uri_receiver, lookup_receive_callbacks, call_if, post_both, on_ws_message,
}

-- The callback that is registered for the longest uri that the target lies within, if any.
abbrev pub matched_handler : (UriCallbacks → Handler) → Server → Text → Handler
matched_handler field s target =
    let matched = longest_uri_match s.uris (target_path target) in
    if is_empty matched then none else uri_handler field s.uris matched

post_both_calls :
    (cbs : Handler × Handler) (call : ℕ → Call)
    → calls_of (post_both cbs call) ≡ call_if cbs.0 call ++ call_if cbs.1 call
post_both_calls (none, none) call = refl
post_both_calls (none, some u) call = refl
post_both_calls (some g, none) call = refl
post_both_calls (some g, some u) call = refl

-- A server that runs and listens takes the client.
register_ws_client_taken :
    (s : Server) (session acceptor : ℕ) (target : Text) (is_ssl : Bool)
    → s.shutdown ≡ false
    → s.acceptor ≡ some acceptor
    → (register_ws_client s session target is_ssl).0
      ≡ register_locked s session (longest_uri_match s.uris (target_path target)) is_ssl
unfolding register_ws_client
register_ws_client_taken s session acceptor target is_ssl running listening = ground arith

receiver_registered :
    (s : Server) (session : ℕ) (matched : Text) (is_ssl : Bool) (field : UriCallbacks → Handler)
    → uri_receiver field (register_locked s session matched is_ssl) s.next_connection_id
      ≡ (if is_empty matched then none else uri_handler field s.uris matched)
unfolding uri_receiver register_locked
receiver_registered s session matched is_ssl field =
    let entry : ClientEntry = record { session = session; uri = matched; is_ssl = is_ssl } in
    let found : lookup s.next_connection_id (insert s.next_connection_id entry s.clients)
        ≡ some entry =
      lookup-insert s.next_connection_id s.next_connection_id entry s.clients
      ∙ rw (==_refl s.next_connection_id) in
    rw (found, uri_receiver)

-- A text of a client that has just been registered is delivered to the callback for all clients,
-- and then to that of the longest registered uri that its target lies within, if these are set.
pub on_ws_message-register_ws_client :
    (s : Server) (session acceptor : ℕ) (target : Text) (is_ssl : Bool) (m : Text)
    → s.shutdown ≡ false
    → s.acceptor ≡ some acceptor
    → let id = s.next_connection_id in
      calls_of (on_ws_message (register_ws_client s session target is_ssl).0 id m)
      ≡ call_if s.client_cbs.on_client_message_received (λ h. message h id m)
        ++ call_if
            (matched_handler (λ c. c.on_client_message_received) s target)
            (λ h. message h id m)
unfolding on_ws_message lookup_receive_callbacks register_locked
on_ws_message-register_ws_client s session acceptor target is_ssl m running listening =
    let matched = longest_uri_match s.uris (target_path target) in
    let call : ℕ → Call = λ h. message h s.next_connection_id m in
    let receiver =
      receiver_registered s session matched is_ssl (λ c. c.on_client_message_received) in
    ap (λ t. calls_of (on_ws_message t s.next_connection_id m))
      (register_ws_client_taken s session acceptor target is_ssl running listening)
    ∙ (post_both_calls _ call
        ∙ ap (λ u. call_if s.client_cbs.on_client_message_received call ++ call_if u call) receiver)
