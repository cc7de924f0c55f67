-- ===== src/Client/World/Handlers.antt =====
-- What a handler of a session does to the session's place in the client.
use websockets.Prelude.{
  Ensures, is_empty_snoc, length_snoc, ℕ, ◌≡◌, Bool, true, false, Option, none, some, arith,
}
use websockets.Text.{Text}
use websockets.Assoc.{Assoc}
use websockets.Client.{OutgoingMessage}
use websockets.Client.Session.{
  ErrorCode, on_async_connect, on_resolve, on_tcp_connect, on_ssl_handshake, on_websocket_handshake,
  on_send, on_close, on_read, on_write,
}
use websockets.Client.Session.Strand.{
  Strand, Event, connect, resolved, tcp_connected, ssl_shaken, shaken, send, close, read_done,
  write_done, close_done, fire, Enabled,
}
use websockets.Client.Session.Strand.Safety.{Inv, fire-Inv}
use websockets.Client.World.{is_completion, clear, is_live, gives_up}

-- A session that is asked to close stays so, none comes to life again, and one whose attempt
-- fails is not alive. `waits` says whether its first handler is still to come.
pub record Ages (waits : Bool) (t u : Strand) : Type 0 where
  pub unstarted_after : u.unstarted ≡ waits
  pub asked : t.session.close_requested ≡ true → u.session.close_requested ≡ true
  pub lives : is_live u ≡ true → is_live t ≡ true
  pub fails_dead : gives_up u.trace ≡ true → is_live u ≡ false

module _ (t : Strand) (v : Inv t) where
  connect-Ages :
      (host : Text) (port : ℕ) (resource : Text) (headers : Assoc Text Text)
      → t.unstarted ≡ true
      → Ensures (Ages false t) (fire (clear t) (connect host port resource headers))
  unfolding fire on_async_connect
  connect-Ages host port resource headers e = ground arith

  resolved-Ages :
      (ec : ErrorCode)
      → t.resolving ≡ true
      → Ensures (Ages t.unstarted t) (fire (clear t) (resolved ec))
  unfolding fire on_resolve
  resolved-Ages ec e = ground arith

  tcp_connected-Ages :
      (ec : ErrorCode) (sni : Bool)
      → t.connecting ≡ true
      → Ensures (Ages t.unstarted t) (fire (clear t) (tcp_connected ec sni))
  unfolding fire on_tcp_connect
  tcp_connected-Ages ec sni e = ground arith

  ssl_shaken-Ages :
      (ec : ErrorCode)
      → t.securing ≡ true
      → Ensures (Ages t.unstarted t) (fire (clear t) (ssl_shaken ec))
  unfolding fire on_ssl_handshake
  ssl_shaken-Ages ec e = ground arith

  shaken-Ages :
      (ec : ErrorCode)
      → t.shaking ≡ true
      → Ensures (Ages t.unstarted t) (fire (clear t) (shaken ec))
  unfolding fire on_websocket_handshake
  shaken-Ages ec e = ground arith

  read-Ages :
      (ec : ErrorCode) (b : Bool) (m : Text)
      → Enabled t (read_done ec b m)
      → Ensures (Ages t.unstarted t) (fire (clear t) (read_done ec b m))
  unfolding fire on_read
  read-Ages ec b m e = ground arith

  write-Ages :
      (ec : ErrorCode)
      → Enabled t (write_done ec)
      → Ensures (Ages t.unstarted t) (fire (clear t) (write_done ec))
  unfolding fire on_write
  write-Ages ec e = ground arith

  close_done-Ages : Ensures (Ages t.unstarted t) (fire (clear t) close_done)
  unfolding fire
  close_done-Ages = ground arith

  send-Ages : (m : OutgoingMessage) → Ensures (Ages t.unstarted t) (fire (clear t) (send m))
  unfolding fire on_send
  send-Ages m =
      let q = t.session.write_queue in ground (arith, is_empty_snoc {0} q m, length_snoc {0} q m)

  close-Ages :
      Ensures
        (λ u. Ages t.unstarted t u × (u.session.close_requested ≡ true))
        (fire (clear t) close)
  unfolding fire on_close
  close-Ages = ground arith

  completion-Ages :
      (e : Event)
      → is_completion e ≡ true
      → Enabled t e
      → Ensures (Ages t.unstarted t) (fire (clear t) e)
  completion-Ages (resolved ec) i e = resolved-Ages ec e
  completion-Ages (tcp_connected ec sni) i e = tcp_connected-Ages ec sni e
  completion-Ages (ssl_shaken ec) i e = ssl_shaken-Ages ec e
  completion-Ages (shaken ec) i e = shaken-Ages ec e
  completion-Ages (read_done ec b m) i e = read-Ages ec b m e
  completion-Ages (write_done ec) i e = write-Ages ec e
  completion-Ages close_done i e = close_done-Ages
  completion-Ages _ i e = cc

  -- The trace does not matter for the soundness of the strand.
  clear-Inv : Inv (clear t)
  clear-Inv = record {
    one_step = v.one_step;
    quiet = v.quiet;
    callback = v.callback;
    pumping = v.pumping;
    idle = v.idle;
    orphan = v.orphan;
    sent = v.sent;
    drained = v.drained;
    shut = v.shut;
  }

  cleared-Inv : (e : Event) → Enabled (clear t) e → Ensures Inv (fire (clear t) e)
  cleared-Inv e enabled = fire-Inv (clear t) e clear-Inv enabled

clear-Enabled :
    (t : Strand) (e : Event) → is_completion e ≡ true → Enabled t e → Enabled (clear t) e
clear-Enabled t (resolved ec) i e = e
clear-Enabled t (tcp_connected ec sni) i e = e
clear-Enabled t (ssl_shaken ec) i e = e
clear-Enabled t (shaken ec) i e = e
clear-Enabled t (read_done ec b m) i e = e
clear-Enabled t (write_done ec) i e = e
clear-Enabled t close_done i e = e
clear-Enabled t _ i e = cc

-- A handler has run: `asks` says that it was that of a close, and `waits` whether the session's
-- first one is still to come.
abbrev pub Handled : Bool → Bool → Strand → Strand → Type 0
Handled asks waits t u = Inv u × Ages waits t u × (asks ≡ true → u.session.close_requested ≡ true)

quiet-Handled :
    (t : Strand) (waits : Bool) (o : Option Strand)
    → Ensures Inv o
    → Ensures (Ages waits t) o
    → Ensures (Handled false waits t) o
quiet-Handled t waits none i a = i
quiet-Handled t waits (some u) i a = (i, a, λ e. cc)

close_cases :
    (t : Strand) (o : Option Strand)
    → Ensures Inv o
    → Ensures (λ u. Ages t.unstarted t u × (u.session.close_requested ≡ true)) o
    → Ensures (Handled true t.unstarted t) o
close_cases t none i a = i
close_cases t (some u) i a = (i, a.0, λ e. a.1)

module _ (t : Strand) (v : Inv t) where
  pub completion-Handled :
      (e : Event)
      → is_completion e ≡ true
      → Enabled t e
      → Ensures (Handled false t.unstarted t) (fire (clear t) e)
  completion-Handled e i enabled =
      quiet-Handled t t.unstarted (fire (clear t) e)
        (cleared-Inv t v e (clear-Enabled t e i enabled)) (completion-Ages t v e i enabled)

  pub connect-Handled :
      (host : Text) (port : ℕ) (resource : Text) (headers : Assoc Text Text)
      → t.unstarted ≡ true
      → Ensures (Handled false false t) (fire (clear t) (connect host port resource headers))
  connect-Handled host port resource headers e =
      quiet-Handled t false (fire (clear t) (connect host port resource headers))
        (cleared-Inv t v (connect host port resource headers) e)
        (connect-Ages t v host port resource headers e)

  pub send-Handled :
      (m : OutgoingMessage) → Ensures (Handled false t.unstarted t) (fire (clear t) (send m))
  send-Handled m =
      quiet-Handled t t.unstarted (fire (clear t) (send m)) (cleared-Inv t v (send m) tt)
        (send-Ages t v m)

  pub close-Handled : Ensures (Handled true t.unstarted t) (fire (clear t) close)
  close-Handled = close_cases t (fire (clear t) close) (cleared-Inv t v close tt) (close-Ages t v)
