-- ===== src/Http.antt =====
-- Plain http in src/CWebsocketServer.cpp: `HttpMsg`, `CHttpWrapper` and `CHttpConnection`.
pub mod Wrapper
pub mod Connection
pub mod Cycle
mod Tests
use Prim.Native.String.{String}
use websockets.Prelude.{ℕ, Bool, true, false, List, [], ◌++◌, Option}
use websockets.Text.{Text, codes}
use websockets.Target.{Parameters}

-- `HttpMsg`, for a request and for the response to it.
pub record HttpMsg : Type 0 where
  pub body : Text
  pub keep_alive : Bool
  pub version : ℕ
  pub uri : Text
  pub method : Text
  pub reason : Text
  pub response_code : ℕ
  pub client_id : ℕ
  pub context_type : Text
  pub query_parameters : Parameters

-- `HttpErrorMessage`
pub http_error_message : Text → Text → Text
http_error_message short_msg long_msg =
    codes "{\"message\": { \"shortMessage\": \""
    ++ (short_msg ++ (codes "\", \"longMessage\": \"" ++ (long_msg ++ codes "\"}}")))

-- The fields that `HttpMsg` has before a request is read into it.
pub default_msg : HttpMsg
default_msg = record {
  body = [];
  keep_alive = true;
  version = 11;
  uri = [];
  method = [];
  reason = codes "OK";
  response_code = 200;
  client_id = 0;
  context_type = codes "application/json";
  query_parameters = [];
}
