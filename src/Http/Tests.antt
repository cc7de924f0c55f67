-- ===== src/Http/Tests.antt =====
-- A wrapper whose message is changed after the reply, before the strand runs.
use websockets.Prelude.{ℕ, List, [], ◌∷◌, some}
use websockets.Http.{HttpMsg, default_msg}
use websockets.Http.Wrapper.{
  Use, replies, touches, edits, runs, lifetime, fresh_exchange, Delivers, Delivers-lifetime,
}

abbrev with_status : ℕ → HttpMsg → HttpMsg
with_status status msg = record msg { response_code = status }

-- The handler sets the status, replies, replies again and sets another status.
abbrev handled : List Use
handled =
    touches (edits (with_status 404)) ∷ replies ∷ replies ∷ touches (edits (with_status 403)) ∷ []

Delivers-lifetime_example :
    Delivers
      (lifetime (fresh_exchange default_msg) handled (runs ∷ []))
      (some (with_status 403 (with_status 404 default_msg)))
Delivers-lifetime_example = Delivers-lifetime default_msg handled (runs ∷ [])
