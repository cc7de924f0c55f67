-- ===== src/Session/Strand/Steady.antt =====
-- What the handlers of a session leave as it was, and what they queue.
use websockets.Prelude.{
  ◌⊎◌, inl, inr, Whenever, ◌≡◌, ap, subst, none, some, List, [], ◌∷◌, ◌++◌, if◌then◌else◌,
  append-nil, arith,
}
use websockets.Payload.{Payload}
use websockets.Session.{on_send, on_close, on_accept, on_read, on_write}
use websockets.Session.Strand.{
  Strand, Event, Enabled, accept_done, send, close, read_done, write_done, close_done, fire,
  accepts,
}

-- The payloads that the handler of an event queues.
abbrev pub queued : Strand → Event → List Payload
queued t (send p) = if accepts t.session then p ∷ [] else []
queued t _ = []

-- The target and the kind of stream are those of before.
pub record Steady (t u : Strand) (more : List Payload) : Type 0 where
  pub same_target : u.session.target ≡ t.session.target
  pub same_stream : u.session.is_ssl ≡ t.session.is_ssl
  pub grown : u.accepted ≡ t.accepted ++ more

ruleset steady = (arith, append-nil)

module _ (t : Strand) where
  pub fire-Steady : (e : Event) → Whenever (λ u. Steady t u (queued t e)) (fire t e)
  unfolding fire on_accept on_send on_close on_read on_write
  fire-Steady (accept_done ec none) = grind steady
  fire-Steady (accept_done ec (some id)) = grind steady
  fire-Steady (send p) = grind steady
  fire-Steady close = grind steady
  fire-Steady (read_done ec b m) = grind steady
  fire-Steady (write_done ec) = grind steady
  fire-Steady close_done = grind steady

-- A session stays as it is, or one handler of it runs.
abbrev pub Moved : Strand → Strand → Type 0
Moved t u = (u ≡ t) ⊎ ((e : Event) × Enabled t e × (fire t e ≡ some u))

pub Moved-kept :
    {t u : Strand}
    → Moved t u
    → (u.session.target ≡ t.session.target) × (u.session.is_ssl ≡ t.session.is_ssl)
Moved-kept (inl same) =
    (ap (λ (v : Strand). v.session.target) same, ap (λ (v : Strand). v.session.is_ssl) same)
Moved-kept {t} (inr (e, enabled, fired)) =
    let v = subst (Whenever (λ u. Steady t u (queued t e))) fired (fire-Steady t e) in
    (v.same_target, v.same_stream)
