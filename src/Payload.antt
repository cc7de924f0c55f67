-- ===== src/Payload.antt =====
-- `SPayload` of src/CWebsocketServer.cpp: a text or a binary payload. Sharing by pointer is not
-- visible in the values, since payloads are never changed.
use websockets.Prelude.{Bool, true, false}
use websockets.Text.{Text}

pub data Payload : Type 0 where
  text : Text → Payload
  content : Text → Payload

-- `isText`, which selects the frame type
abbrev pub is_text : Payload → Bool
is_text (text s) = true
is_text (content s) = false

-- `Buffer()`
abbrev pub buffer : Payload → Text
buffer (text s) = s
buffer (content s) = s
