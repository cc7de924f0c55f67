-- ===== src/Accept.antt =====
-- The accept loop of `CWebsocketServer::CImpl` (`DoAccept`, `OnAccept`) and `CDetectSession`
-- (src/CWebsocketServer.cpp): a socket becomes an http connection over ssl or in plain.
pub mod Loop
use websockets.Prelude.{
  ℕ, Bool, true, false, not, ◌||◌, ◌&&◌, Option, none, some, List, [], ◌∷◌, ◌++◌, if◌then◌else◌,
  ◌==◌,
}
use websockets.Server.{ServerSettings}
use websockets.Http.Connection.{request_expiry}

-- The results of accepting and of detecting that the code tells apart.
pub data ErrorCode : Type 0 where
  success operation_aborted other : ErrorCode

abbrev pub fails : ErrorCode → Bool
fails success = false
fails _ = true

pub data Action : Type 0 where
  async_accept log_accept : Action
  -- `CDetectSession::Run`, with the deadline of its stream
  async_detect_ssl : Option ℕ → Action
  -- `CHttpConnection::Run`, over ssl or in plain
  run_connection : Bool → Action

-- `mSettings.sslContext && *mSettings.sslContext`
abbrev pub has_ssl_context : ServerSettings → Bool
has_ssl_context settings = elim settings.ssl_context [
  | none ↦ false
  | some p ↦ elim p [ none ↦ false | some context ↦ true ]
]

-- `CDetectSession::Run`
pub detect : ServerSettings → List Action
unfolding request_expiry
detect settings = async_detect_ssl (request_expiry settings) ∷ []

-- The handler of the detection.
unfoldable pub on_detect : ErrorCode → Bool → List Action
on_detect ec is_ssl = if fails ec then [] else run_connection is_ssl ∷ []

-- `OnAccept`
pub on_accept : ServerSettings → List Action
unfolding detect
on_accept settings =
    if has_ssl_context settings
    then (if settings.ssl_required then run_connection true ∷ [] else detect settings)
    else run_connection false ∷ []

-- `DoAccept`
unfoldable pub do_accept : List Action
do_accept = async_accept ∷ []

-- The handler of `async_accept`: the server may be gone, and the acceptor closed.
unfoldable pub on_async_accept : ServerSettings → Bool → Bool → ErrorCode → List Action
unfolding on_accept do_accept
on_async_accept settings alive is_open success =
    if not alive || not is_open then [] else on_accept settings ++ do_accept
on_async_accept settings alive is_open operation_aborted = []
on_async_accept settings alive is_open other =
    if not alive || not is_open then [] else log_accept ∷ do_accept
