-- ===== src/Client/Api/Headers.antt =====
-- The handshake headers of an attempt to connect.
use websockets.Prelude.{
  ℕ, ◌≡◌, ◌≢◌, refl, ap, ◌∙◌, Option, none, some, List, [], ◌∷◌, if◌then◌else◌,
}
use websockets.Text.{Text, codes, text_eq}
use websockets.Assoc.{lookup, text_key}
use websockets.Assoc.Laws.{lookup-insert}
use websockets.Client.Impl.{
  Client, ClientSettings, create, connect_session, new_client, set_handshake_header,
  clear_handshake_headers, async_connect, do_connect, uses_ssl, host_or_default,
}
use websockets.Client.Api.{async_connect_to}

pub data HeaderCall : Type 0 where
  sets : Text → Text → HeaderCall
  clears : HeaderCall

make_call : Client → HeaderCall → Client
unfolding set_handshake_header clear_handshake_headers
make_call c (sets name value) = set_handshake_header c name value
make_call c clears = clear_handshake_headers c

pub make_calls : Client → List HeaderCall → Client
unfolding make_call
make_calls c [] = c
make_calls c (call ∷ calls) = make_calls (make_call c call) calls

-- The value that a header was last given, since the headers were last cleared.
abbrev pub latest : Text → Option Text → List HeaderCall → Option Text
latest name value [] = value
latest name value (sets name' value' ∷ calls) =
    latest name (if text_eq name' name then some value' else value) calls
latest name value (clears ∷ calls) = latest name none calls

lookup-make_calls :
    (c : Client) (name : Text) (calls : List HeaderCall)
    → lookup name (make_calls c calls).handshake_headers
      ≡ latest name (lookup name c.handshake_headers) calls
unfolding make_calls make_call set_handshake_header clear_handshake_headers lookup
lookup-make_calls c name [] = refl
lookup-make_calls c name (sets name' value ∷ calls) =
    lookup-make_calls (set_handshake_header c name' value) name calls
    ∙ ap (λ v. latest name v calls) (lookup-insert name' name value c.handshake_headers)
lookup-make_calls c name (clears ∷ calls) = lookup-make_calls (clear_handshake_headers c) name calls

-- What the calls leave as it was.
Kept : Client → Client → Type 0
Kept c d =
    (d.settings ≡ c.settings)
    × (d.shutdown ≡ c.shutdown)
    × (d.session ≡ c.session)
    × (d.next_session ≡ c.next_session)

make_calls-Kept : (c : Client) (calls : List HeaderCall) → Kept c (make_calls c calls)
unfolding Kept make_calls make_call set_handshake_header clear_handshake_headers
make_calls-Kept c [] = (refl, refl, refl, refl)
make_calls-Kept c (sets name value ∷ calls) =
    make_calls-Kept (set_handshake_header c name value) calls
make_calls-Kept c (clears ∷ calls) = make_calls-Kept (clear_handshake_headers c) calls

host_or_default-nil : (host : Text) → host ≡ [] → host_or_default host ≡ codes "127.0.0.1"
unfolding host_or_default
host_or_default-nil host e = rw e refl

host_or_default-given : (host : Text) → host ≢ [] → host_or_default host ≡ host
unfolding host_or_default
host_or_default-given [] n = absurd (n refl)
host_or_default-given (b ∷ host) n = refl

-- A new client whose headers were set and cleared in any order, and which then connects, makes
-- one session, with ssl if it has a context, and gives it the host, or 127.0.0.1 for an empty one,
-- the port, the resource and headers: under each name the value that was last set since the last
-- clearing.
pub async_connect_to-headers :
    (settings : ClientSettings) (calls : List HeaderCall) (host : Text) (port : ℕ) (resource : Text)
    → let c = make_calls (new_client settings) calls in
      (h : Text) × (host ≡ [] → h ≡ codes "127.0.0.1")
      × (host ≢ [] → h ≡ host)
      × ((async_connect_to c host port resource).1
          ≡ create 0 (uses_ssl settings)
            ∷ connect_session 0 h port resource c.handshake_headers
            ∷ [])
      × ((name : Text) → lookup name c.handshake_headers ≡ latest name none calls)
unfolding async_connect_to async_connect do_connect new_client Kept lookup
async_connect_to-headers settings calls host port resource =
    let (same_settings, same_flag, same_session, same_number) =
      make_calls-Kept (new_client settings) calls in
    (
      host_or_default host,
      (λ e. host_or_default-nil host e),
      (λ n. host_or_default-given host n),
      rw (same_flag, same_session, same_number, same_settings) refl,
      λ name. lookup-make_calls (new_client settings) name calls,
    )
