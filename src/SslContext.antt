-- ===== src/SslContext.antt =====
-- `CSslContext` and `MakeSslContext` (src/ISslContext.cpp): how a context of Boost.Asio is set up.
use websockets.Prelude.{Bool, List, [], ◌∷◌, if◌then◌else◌}

-- The flags of `set_options`.
pub data Flag : Type 0 where
  default_workarounds no_sslv2 no_sslv3 no_tlsv1 no_tlsv1_1 : Flag

pub data VerifyMode : Type 0 where
  verify_none verify_peer : VerifyMode

-- What is called on the context, the constructor included.
pub data Setup : Type 0 where
  tls_client set_default_verify_paths : Setup
  set_options : List Flag → Setup
  set_verify_mode : VerifyMode → Setup

-- The constructor, with its argument `verifyPeer`.
pub construct : Bool → List Setup
construct verify =
    tls_client
    ∷ set_options (default_workarounds ∷ no_sslv2 ∷ no_sslv3 ∷ no_tlsv1 ∷ no_tlsv1_1 ∷ [])
    ∷ (if verify
        then set_default_verify_paths ∷ set_verify_mode verify_peer ∷ []
        else set_verify_mode verify_none ∷ [])

-- `MakeSslContext`, whose argument is true by default.
make_ssl_context : Bool → List Setup
unfolding construct
make_ssl_context verify = construct verify
