-- ===== src/Client/Session/Strand/Flush.antt =====
-- After `Close` the client's queue is flushed: once its messages are written, the close is sent.
use websockets.Prelude.{
  Ensures, is_empty_snoc, length_snoc, ℕ, zero, suc, ◌≡◌, refl, sym, ap, subst, Bool, true, false,
  Option, none, some, List, [], ◌∷◌, is_empty, arith, length, Option-cases, inl, inr,
}
use websockets.Text.{Text}
use websockets.Assoc.{Assoc}
use websockets.Client.{OutgoingMessage}
use websockets.Client.Session.{
  ErrorCode, success, on_async_connect, on_resolve, on_tcp_connect, on_ssl_handshake,
  on_websocket_handshake, on_send, on_close, on_read, on_write,
}
use websockets.Client.Session.Strand.{
  Strand, Event, connect, resolved, tcp_connected, ssl_shaken, shaken, send, close, read_done,
  write_done, close_done, fire, Enabled, new_strand, Reach, here, next,
}
use websockets.Client.Session.Strand.Safety.{Inv, Reach-Inv}
use websockets.Client.Session.Strand.Order.{writes, client_close_after_writes}

-- A close that was requested is sent as soon as the session is open and nothing is queued.
abbrev Prompt : Strand → Type 0
Prompt t =
    t.session.is_open ≡ true
    → t.session.close_requested ≡ true
    → is_empty t.session.write_queue ≡ true
    → t.session.close_sent ≡ true

module _ (t : Strand) (v : Inv t) (w : Prompt t) where
  connect-Prompt :
      (host : Text) (port : ℕ) (resource : Text) (headers : Assoc Text Text)
      → t.unstarted ≡ true
      → Ensures Prompt (fire t (connect host port resource headers))
  unfolding fire on_async_connect
  connect-Prompt host port resource headers e = ground arith

  resolved-Prompt : (ec : ErrorCode) → t.resolving ≡ true → Ensures Prompt (fire t (resolved ec))
  unfolding fire on_resolve
  resolved-Prompt ec e = ground arith

  tcp_connected-Prompt :
      (ec : ErrorCode) (sni : Bool)
      → t.connecting ≡ true
      → Ensures Prompt (fire t (tcp_connected ec sni))
  unfolding fire on_tcp_connect
  tcp_connected-Prompt ec sni e = ground arith

  ssl_shaken-Prompt : (ec : ErrorCode) → t.securing ≡ true → Ensures Prompt (fire t (ssl_shaken ec))
  unfolding fire on_ssl_handshake
  ssl_shaken-Prompt ec e = ground arith

  shaken-Prompt : (ec : ErrorCode) → t.shaking ≡ true → Ensures Prompt (fire t (shaken ec))
  unfolding fire on_websocket_handshake
  shaken-Prompt ec e = ground arith

  send-Prompt : (p : OutgoingMessage) → Ensures Prompt (fire t (send p))
  unfolding fire on_send
  send-Prompt p =
      let q = t.session.write_queue in ground (arith, is_empty_snoc {0} q p, length_snoc {0} q p)

  close-Prompt : Ensures Prompt (fire t close)
  unfolding fire on_close
  close-Prompt = ground arith

  close_done-Prompt : Ensures Prompt (fire t close_done)
  unfolding fire
  close_done-Prompt = w

  read-Prompt :
      (ec : ErrorCode) (b : Bool) (m : Text)
      → Enabled t (read_done ec b m)
      → Ensures Prompt (fire t (read_done ec b m))
  unfolding fire on_read
  read-Prompt ec b m e = ground arith

  write-Prompt :
      (ec : ErrorCode) → Enabled t (write_done ec) → Ensures Prompt (fire t (write_done ec))
  unfolding fire on_write
  write-Prompt ec e = ground arith

fire-Prompt : (t : Strand) (e : Event) → Inv t → Prompt t → Enabled t e → Ensures Prompt (fire t e)
fire-Prompt t (connect host port resource headers) v w e =
    connect-Prompt t v w host port resource headers e
fire-Prompt t (resolved ec) v w e = resolved-Prompt t v w ec e
fire-Prompt t (tcp_connected ec sni) v w e = tcp_connected-Prompt t v w ec sni e
fire-Prompt t (ssl_shaken ec) v w e = ssl_shaken-Prompt t v w ec e
fire-Prompt t (shaken ec) v w e = shaken-Prompt t v w ec e
fire-Prompt t (send p) v w e = send-Prompt t v w p
fire-Prompt t close v w e = close-Prompt t v w
fire-Prompt t (read_done ec b m) v w e = read-Prompt t v w ec b m e
fire-Prompt t (write_done ec) v w e = write-Prompt t v w ec e
fire-Prompt t close_done v w e = close_done-Prompt t v w

Reach-Prompt : (ssl : Bool) {t : Strand} → Reach ssl t → Prompt t
unfolding new_strand
Reach-Prompt ssl (here e) = subst Prompt (sym e) (λ o. cc)
Reach-Prompt ssl (next {t} e r enabled step) =
    subst (Ensures Prompt) step (fire-Prompt t e (Reach-Inv ssl r) (Reach-Prompt ssl r) enabled)

-- The stream writes `n` messages, one after the other, without an error.
pub write_messages : ℕ → Strand → Option Strand
unfolding fire
write_messages zero t = some t
write_messages (suc n) t = elim (fire t (write_done success)) [
  | none ↦ none
  | some u ↦ write_messages n u
]

-- An open session that is asked to close.
abbrev Leaving : List OutgoingMessage → Strand → Type 0
Leaving q t =
    (t.session.is_open ≡ true)
    × (t.session.close_requested ≡ true)
    × (t.failed ≡ false)
    × (t.session.write_queue ≡ q)

write_one :
    (t : Strand) (p : OutgoingMessage) (ps : List OutgoingMessage)
    → Inv t
    → Leaving (p ∷ ps) t
    → (t.writing ≡ true) × Ensures (Leaving ps) (fire t (write_done success))
unfolding fire on_write
write_one t p ps v l = ground arith

flush :
    (ssl : Bool) (q : List OutgoingMessage) {t : Strand}
    → Reach ssl t
    → Leaving q t
    → (u : Strand) × (write_messages (length q) t ≡ some u) × Reach ssl u × Leaving [] u
unfolding write_messages
flush ssl [] {t} r l = (t, refl, r, l)
flush ssl (p ∷ ps) {t} r l =
    let (writing, after) = write_one t p ps (Reach-Inv ssl r) l in
    elim (Option-cases (fire t (write_done success))) [
      | inl e ↦ absurd (subst (Ensures (Leaving ps)) e after)
      | inr (u, e) ↦
          let r' = next (write_done success) r (writing, λ f. cc (f, l.2)) e in
          let (z, run, r'', l') = flush ssl ps r' (subst (Ensures (Leaving ps)) e after) in
          (z, rw (e, write_messages) run, r'', l')
    ]

-- A client session that is open, was asked to close and whose stream has not failed sends its close
-- once its queue is written, and has then handed over every message that it had queued.
pub write_messages-closes :
    (ssl : Bool) {t : Strand}
    → Reach ssl t
    → t.session.is_open ≡ true
    → t.session.close_requested ≡ true
    → t.failed ≡ false
    → (u : Strand) × (write_messages (length t.session.write_queue) t ≡ some u)
      × (u.session.close_sent ≡ true)
      × (writes u.trace ≡ u.accepted)
write_messages-closes ssl {t} r o c f =
    let (u, run, r', l) = flush ssl t.session.write_queue r (o, c, f, refl) in
    let sent = Reach-Prompt ssl r' l.0 l.1 (ap is_empty l.3) in
    (u, run, sent, client_close_after_writes ssl r' l.0 sent)
