-- ===== src/Client/Session/Strand/Order.antt =====
-- The messages that a client session queued are written in their order, and before the close.
use websockets.Prelude.{
  Ensures, is_empty_snoc, length_snoc, ℕ, ◌≡◌, refl, sym, ap, ◌∙◌, subst, Bool, true, false, List,
  [], ◌∷◌, ◌++◌, is_empty, arith, append_assoc, append-nil, Bool-cases, inl, inr,
}
use websockets.Text.{Text}
use websockets.Assoc.{Assoc}
use websockets.Client.{OutgoingMessage}
use websockets.Client.Session.{
  ErrorCode, Action, async_write, on_async_connect, on_resolve, on_tcp_connect, on_ssl_handshake,
  on_websocket_handshake, on_send, on_close, on_read, on_write,
}
use websockets.Client.Session.Strand.{
  Strand, Event, connect, resolved, tcp_connected, ssl_shaken, shaken, send, close, read_done,
  write_done, close_done, fire, Enabled, new_strand, Reach, here, next,
}
use websockets.Client.Session.Strand.Safety.{Inv, Reach-Inv, steps}

-- The messages that were handed to the stream.
abbrev pub writes : List Action → List OutgoingMessage
writes [] = []
writes (async_write m ∷ rest) = m ∷ writes rest
writes (_ ∷ rest) = writes rest

abbrev pub tail : List OutgoingMessage → List OutgoingMessage
tail [] = []
tail (x ∷ xs) = xs

writes-append : (xs ys : List Action) → writes (xs ++ ys) ≡ writes xs ++ writes ys
writes-append [] ys = refl
writes-append (async_write m ∷ xs) ys = ap (◌∷◌ m) (writes-append xs ys)
writes-append (x ∷ xs) ys = writes-append xs ys

ruleset queue_laws = (arith, writes-append, append_assoc, append-nil)

-- What waits behind the write in flight completes the list of what was queued.
record Ordered (t : Strand) : Type 0 where
  flow : t.session.is_open ≡ true → writes t.trace ++ tail t.session.write_queue ≡ t.accepted
  start : steps t ≡ 1 → (writes t.trace ≡ []) × (t.accepted ≡ [])

-- A session that is not open queues and writes nothing more.
abbrev Frozen : Strand → Strand → Type 0
Frozen t u =
    u.session.is_open ≡ false → (writes u.trace ≡ writes t.trace) × (u.accepted ≡ t.accepted)

abbrev Goes : Strand → Strand → Type 0
Goes t u = Ordered u × Frozen t u

module _ (t : Strand) (v : Inv t) (w : Ordered t) where
  connect-Goes :
      (host : Text) (port : ℕ) (resource : Text) (headers : Assoc Text Text)
      → t.unstarted ≡ true
      → Ensures (Goes t) (fire t (connect host port resource headers))
  unfolding fire on_async_connect
  connect-Goes host port resource headers e = grind queue_laws

  resolved-Goes : (ec : ErrorCode) → t.resolving ≡ true → Ensures (Goes t) (fire t (resolved ec))
  unfolding fire on_resolve
  resolved-Goes ec e = grind queue_laws

  tcp_connected-Goes :
      (ec : ErrorCode) (sni : Bool)
      → t.connecting ≡ true
      → Ensures (Goes t) (fire t (tcp_connected ec sni))
  unfolding fire on_tcp_connect
  tcp_connected-Goes ec sni e = grind queue_laws

  ssl_shaken-Goes : (ec : ErrorCode) → t.securing ≡ true → Ensures (Goes t) (fire t (ssl_shaken ec))
  unfolding fire on_ssl_handshake
  ssl_shaken-Goes ec e = grind queue_laws

  shaken-Goes : (ec : ErrorCode) → t.shaking ≡ true → Ensures (Goes t) (fire t (shaken ec))
  unfolding fire on_websocket_handshake
  shaken-Goes ec e = grind queue_laws

  send-Goes : (m : OutgoingMessage) → Ensures (Goes t) (fire t (send m))
  unfolding fire on_send
  send-Goes m =
      let q = t.session.write_queue in
      grind (queue_laws, is_empty_snoc {0} q m, length_snoc {0} q m)

  close-Goes : Ensures (Goes t) (fire t close)
  unfolding fire on_close
  close-Goes = grind queue_laws

  read-Goes :
      (ec : ErrorCode) (b : Bool) (m : Text)
      → Enabled t (read_done ec b m)
      → Ensures (Goes t) (fire t (read_done ec b m))
  unfolding fire on_read
  read-Goes ec b m e = grind queue_laws

  write-Goes :
      (ec : ErrorCode) → Enabled t (write_done ec) → Ensures (Goes t) (fire t (write_done ec))
  unfolding fire on_write
  write-Goes ec e = grind queue_laws

  close_done-Goes : Ensures (Goes t) (fire t close_done)
  unfolding fire
  close_done-Goes = grind queue_laws

fire-Goes : (t : Strand) (e : Event) → Inv t → Ordered t → Enabled t e → Ensures (Goes t) (fire t e)
fire-Goes t (connect host port resource headers) v w e =
    connect-Goes t v w host port resource headers e
fire-Goes t (resolved ec) v w e = resolved-Goes t v w ec e
fire-Goes t (tcp_connected ec sni) v w e = tcp_connected-Goes t v w ec sni e
fire-Goes t (ssl_shaken ec) v w e = ssl_shaken-Goes t v w ec e
fire-Goes t (shaken ec) v w e = shaken-Goes t v w ec e
fire-Goes t (send m) v w e = send-Goes t v w m
fire-Goes t close v w e = close-Goes t v w
fire-Goes t (read_done ec b m) v w e = read-Goes t v w ec b m e
fire-Goes t (write_done ec) v w e = write-Goes t v w ec e
fire-Goes t close_done v w e = close_done-Goes t v w

module _ (ssl : Bool) where
  Reach-Ordered : {t : Strand} → Reach ssl t → Ordered t
  unfolding new_strand
  Reach-Ordered (here e) = subst Ordered (sym e) (ground arith)
  Reach-Ordered (next {t} e r enabled step) =
      (subst (Ensures (Goes t)) step (fire-Goes t e (Reach-Inv ssl r) (Reach-Ordered r) enabled)).0

  written_of :
      {t : Strand}
      → Reach ssl t
      → (rest : List OutgoingMessage) × (t.accepted ≡ writes t.trace ++ rest)
  unfolding new_strand
  written_of (here {t} e) = ([], ground arith)
  written_of (next {t} {u} e r enabled step) =
      let (w, frozen) =
        subst (Ensures (Goes t)) step (fire-Goes t e (Reach-Inv ssl r) (Reach-Ordered r) enabled) in
      elim (Bool-cases u.session.is_open) [
        | inl open_ ↦ (tail u.session.write_queue, sym (w.flow open_))
        | inr shut ↦
            let (rest, e') = written_of r in
            (rest, (frozen shut).1 ∙ (e' ∙ ap (λ l. l ++ rest) (sym (frozen shut).0)))
      ]

tail_empty : (l : List OutgoingMessage) → is_empty l ≡ true → tail l ≡ []
tail_empty [] h = refl
tail_empty (x ∷ l) h = cc

-- In every state that a client session can reach, the messages handed to the stream are the first
-- of those that were queued, in their order.
client_written_in_order :
    (ssl : Bool) {t : Strand}
    → Reach ssl t
    → (rest : List OutgoingMessage) × (t.accepted ≡ writes t.trace ++ rest)
client_written_in_order ssl r = written_of ssl r

-- A client session that is open and has sent its close had handed over all messages before.
pub client_close_after_writes :
    (ssl : Bool) {t : Strand}
    → Reach ssl t
    → t.session.is_open ≡ true
    → t.session.close_sent ≡ true
    → writes t.trace ≡ t.accepted
client_close_after_writes ssl {t} r o s =
    let flow = (Reach-Ordered ssl r).flow o in
    let none_left = tail_empty t.session.write_queue ((Reach-Inv ssl r).drained s) in
    sym (append-nil (writes t.trace)) ∙ (ap (◌++◌ (writes t.trace)) (sym none_left) ∙ flow)
