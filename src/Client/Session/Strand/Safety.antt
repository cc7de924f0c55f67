-- ===== src/Client/Session/Strand/Safety.antt =====
-- No handler of a client session meets undefined behaviour or starts an operation that its stream
-- cannot take.
use websockets.Prelude.{
  Ensures, is_empty_snoc, length_snoc, ℕ, ◌≡◌, ◌≢◌, ◌+◌, ◌≤◌, sym, subst, Bool, true, false, not,
  ◌||◌, none, if◌then◌else◌, is_empty, arith,
}
use websockets.Text.{Text}
use websockets.Assoc.{Assoc}
use websockets.Client.{OutgoingMessage}
use websockets.Client.Session.{
  ErrorCode, on_async_connect, on_resolve, on_tcp_connect, on_ssl_handshake, on_websocket_handshake,
  on_send, on_close, on_read, on_write,
}
use websockets.Client.Session.Strand.{
  Strand, Event, connect, resolved, tcp_connected, ssl_shaken, shaken, send, close, read_done,
  write_done, close_done, fire, Enabled, new_strand, Reach, here, next, making,
}

abbrev pub bit : Bool → ℕ
bit b = if b then 1 else 0

-- How many steps of the connection are outstanding, the one not yet begun included.
abbrev pub steps : Strand → ℕ
steps t =
    bit t.unstarted + (bit t.resolving + (bit t.connecting + (bit t.securing + bit t.shaking)))

pub record Inv (t : Strand) : Type 0 where
  pub one_step : steps t ≤ 1
  -- the connection is made, or nothing else goes on
  pub quiet :
      steps t ≡ 1
      → (t.session.is_open ≡ false)
        × (t.reading ≡ false)
        × (t.writing ≡ false)
        × (t.session.close_sent ≡ false)
  -- `mOnConnectComplete` is set exactly while the connection is being made
  pub callback : t.session.on_connect_complete ≡ making t
  pub pumping : t.session.is_open ≡ true → t.writing ≡ not (is_empty t.session.write_queue)
  pub idle : t.session.is_open ≡ false → is_empty t.session.write_queue ≡ true
  pub orphan : t.session.is_open ≡ false → t.failed ≡ false → t.writing || t.reading ≡ false
  pub sent : t.session.close_sent ≡ true → t.session.close_requested ≡ true
  pub drained : t.session.close_sent ≡ true → is_empty t.session.write_queue ≡ true
  pub shut : t.closing ≡ true → t.session.close_sent ≡ true

module _ (t : Strand) (v : Inv t) where
  connect-Inv :
      (host : Text) (port : ℕ) (resource : Text) (headers : Assoc Text Text)
      → t.unstarted ≡ true
      → Ensures Inv (fire t (connect host port resource headers))
  unfolding fire on_async_connect
  connect-Inv host port resource headers e = ground arith

  resolved-Inv : (ec : ErrorCode) → t.resolving ≡ true → Ensures Inv (fire t (resolved ec))
  unfolding fire on_resolve
  resolved-Inv ec e = ground arith

  tcp_connected-Inv :
      (ec : ErrorCode) (sni : Bool)
      → t.connecting ≡ true
      → Ensures Inv (fire t (tcp_connected ec sni))
  unfolding fire on_tcp_connect
  tcp_connected-Inv ec sni e = ground arith

  ssl_shaken-Inv : (ec : ErrorCode) → t.securing ≡ true → Ensures Inv (fire t (ssl_shaken ec))
  unfolding fire on_ssl_handshake
  ssl_shaken-Inv ec e = ground arith

  shaken-Inv : (ec : ErrorCode) → t.shaking ≡ true → Ensures Inv (fire t (shaken ec))
  unfolding fire on_websocket_handshake
  shaken-Inv ec e = ground arith

  send-Inv : (m : OutgoingMessage) → Ensures Inv (fire t (send m))
  unfolding fire on_send
  send-Inv m =
      let q = t.session.write_queue in ground (arith, is_empty_snoc {0} q m, length_snoc {0} q m)

  close-Inv : Ensures Inv (fire t close)
  unfolding fire on_close
  close-Inv = ground arith

  read-Inv :
      (ec : ErrorCode) (b : Bool) (m : Text)
      → Enabled t (read_done ec b m)
      → Ensures Inv (fire t (read_done ec b m))
  unfolding fire on_read
  read-Inv ec b m e = ground arith

  write-Inv : (ec : ErrorCode) → Enabled t (write_done ec) → Ensures Inv (fire t (write_done ec))
  unfolding fire on_write
  write-Inv ec e = ground arith

  close_done-Inv : Ensures Inv (fire t close_done)
  unfolding fire
  close_done-Inv = ground arith

pub fire-Inv : (t : Strand) (e : Event) → Inv t → Enabled t e → Ensures Inv (fire t e)
fire-Inv t (connect host port resource headers) v e = connect-Inv t v host port resource headers e
fire-Inv t (resolved ec) v e = resolved-Inv t v ec e
fire-Inv t (tcp_connected ec sni) v e = tcp_connected-Inv t v ec sni e
fire-Inv t (ssl_shaken ec) v e = ssl_shaken-Inv t v ec e
fire-Inv t (shaken ec) v e = shaken-Inv t v ec e
fire-Inv t (send m) v e = send-Inv t v m
fire-Inv t close v e = close-Inv t v
fire-Inv t (read_done ec b m) v e = read-Inv t v ec b m e
fire-Inv t (write_done ec) v e = write-Inv t v ec e
fire-Inv t close_done v e = close_done-Inv t v

pub Reach-Inv : (ssl : Bool) {t : Strand} → Reach ssl t → Inv t
unfolding new_strand
Reach-Inv ssl (here e) = subst Inv (sym e) (ground arith)
Reach-Inv ssl (next {t} e r enabled step) =
    subst (Ensures Inv) step (fire-Inv t e (Reach-Inv ssl r) enabled)

-- In every state that a client session can reach, every handler that may run next does so without
-- a `front` or `pop_front` of an empty queue and without starting an operation that its stream
-- cannot take: none beside a step of the connection, no second read, no second write or close.
pub client_strand_safe :
    (ssl : Bool) {t : Strand} (e : Event) → Reach ssl t → Enabled t e → fire t e ≢ none
client_strand_safe ssl {t} e r enabled stuck =
    subst (Ensures Inv) stuck (fire-Inv t e (Reach-Inv ssl r) enabled)
