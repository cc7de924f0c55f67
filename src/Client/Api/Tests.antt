-- ===== src/Client/Api/Tests.antt =====
-- A client that sets a header twice.
use websockets.Prelude.{◌≡◌, ◌≢◌, none, List, [], ◌∷◌}
use websockets.Text.{Text, codes}
use websockets.Assoc.{lookup, text_key}
use websockets.Client.Impl.{create, connect_session, default_settings, new_client, uses_ssl}
use websockets.Client.Api.{async_connect_to}
use websockets.Client.Api.Headers.{
  HeaderCall, sets, clears, make_calls, latest, async_connect_to-headers,
}

abbrev no_host : Text
no_host = []

abbrev calls : List HeaderCall
calls =
    sets (codes "Origin") (codes "a")
    ∷ clears
    ∷ sets (codes "Token") (codes "1")
    ∷ sets (codes "Token") (codes "2")
    ∷ []

async_connect_to-headers_example :
    let c = make_calls (new_client default_settings) calls in
    (h : Text) × (no_host ≡ [] → h ≡ codes "127.0.0.1")
    × (no_host ≢ [] → h ≡ no_host)
    × ((async_connect_to c no_host 80 (codes "/chat")).1
        ≡ create 0 (uses_ssl default_settings)
          ∷ connect_session 0 h 80 (codes "/chat") c.handshake_headers
          ∷ [])
    × ((name : Text) → lookup name c.handshake_headers ≡ latest name none calls)
async_connect_to-headers_example =
    async_connect_to-headers default_settings calls no_host 80 (codes "/chat")
