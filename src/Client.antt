-- ===== src/Client.antt =====
-- The client, src/CWebsocketClient.cpp.
pub mod Session
pub mod Impl
pub mod Api
pub mod World
use websockets.Text.{Text}

-- `SOutgoingMessage`: a text, or a binary payload that is shared with the caller.
pub data OutgoingMessage : Type 0 where
  text : Text → OutgoingMessage
  binary : Text → OutgoingMessage
