-- ===== src/Server/Lifecycle/Abstract/View.antt =====
-- The state of the server as the abstract one sees it.
use websockets.Prelude.{ℕ, ◌≡◌, ◌≢◌, refl, ap, none, some, [], ◌∷◌, ◌++◌}
use websockets.Text.{Text}
use websockets.Assoc.{Assoc, nat_key, text_key}
use websockets.Server.{UriCallbacks, Handler, Call, connection_change}
use websockets.Server.Clients.{post_if, invoke_if, change_handler, is_some}
use websockets.Server.Lifecycle.{System, calls_of}
use websockets.Server.Lifecycle.Abstract.{Registry, call_if}

-- What remains of a system without its counts, its port and its acceptor.
abbrev pub view : System → Registry
view sys = record {
  settings = sys.server.settings;
  has_ended = sys.server.shutdown;
  listens = is_some sys.server.acceptor;
  next_id = sys.server.next_connection_id;
  client_cbs = sys.server.client_cbs;
  clients = sys.server.clients;
  uris = sys.server.uris;
  pending = sys.pending;
  chosen = sys.chosen;
}

pub calls_of-posts :
    (a b : Handler) (f g : ℕ → Call)
    → calls_of (post_if a f ++ post_if b g) ≡ call_if a f ++ call_if b g
calls_of-posts none none f g = refl
calls_of-posts none (some y) f g = refl
calls_of-posts (some x) none f g = refl
calls_of-posts (some x) (some y) f g = refl

pub calls_of-invokes :
    (a b : Handler) (f g : ℕ → Call)
    → calls_of (invoke_if a f ++ invoke_if b g) ≡ call_if a f ++ call_if b g
calls_of-invokes none none f g = refl
calls_of-invokes none (some y) f g = refl
calls_of-invokes (some x) none f g = refl
calls_of-invokes (some x) (some y) f g = refl

-- A uri is told the same count, if the two counts agree unless the uri is "".
pub same_change :
    (uris : Assoc Text UriCallbacks) (uri : Text) (m n : ℕ)
    → (uri ≢ [] → m ≡ n)
    → call_if (change_handler uris uri) (λ h. connection_change h m)
      ≡ call_if (change_handler uris uri) (λ h. connection_change h n)
same_change uris [] m n same = refl
same_change uris (c ∷ uri) m n same =
    ap (λ k. call_if (change_handler uris (c ∷ uri)) (λ h. connection_change h k)) (same (λ e. cc))
