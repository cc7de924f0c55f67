-- ===== src/Client/Session/Strand/Reports.antt =====
-- What a client session reports to its client: the end of the attempt once, the end of the
-- connection at most once, and nothing after that.
use websockets.Prelude.{
  Ensures, is_empty_snoc, length_snoc, ℕ, ◌≡◌, ◌+◌, refl, sym, subst, Bool, true, false, ◌&&◌, ◌||◌,
  List, [], ◌∷◌, ◌++◌, if◌then◌else◌, arith,
}
use websockets.Text.{Text}
use websockets.Assoc.{Assoc}
use websockets.Client.{OutgoingMessage}
use websockets.Client.Session.{
  ErrorCode, Action, complete, on_message, on_content, on_disconnect, on_async_connect, on_resolve,
  on_tcp_connect, on_ssl_handshake, on_websocket_handshake, on_send, on_close, on_read, on_write,
}
use websockets.Client.Session.Strand.{
  Strand, Event, connect, resolved, tcp_connected, ssl_shaken, shaken, send, close, read_done,
  write_done, close_done, fire, Enabled, new_strand, Reach, here, next,
}
use websockets.Client.Session.Strand.Safety.{Inv, Reach-Inv, steps}

abbrev pub ended : List Action → Bool
ended [] = false
ended (on_disconnect ∷ rest) = true
ended (_ ∷ rest) = ended rest

-- Nothing is reported but log lines.
abbrev pub silent : List Action → Bool
silent [] = true
silent (on_disconnect ∷ rest) = false
silent (on_message m ∷ rest) = false
silent (on_content m ∷ rest) = false
silent (complete ok ∷ rest) = false
silent (_ ∷ rest) = silent rest

-- After the end nothing more is reported but log lines.
abbrev pub orderly : List Action → Bool
orderly [] = true
orderly (on_disconnect ∷ rest) = silent rest
orderly (_ ∷ rest) = orderly rest

-- How often the attempt was reported complete.
abbrev pub num_complete : List Action → ℕ
num_complete [] = 0
num_complete (complete ok ∷ rest) = 1 + num_complete rest
num_complete (_ ∷ rest) = num_complete rest

silent-append : (xs ys : List Action) → silent (xs ++ ys) ≡ silent xs && silent ys
silent-append [] ys = refl
silent-append (on_disconnect ∷ xs) ys = refl
silent-append (on_message m ∷ xs) ys = refl
silent-append (on_content m ∷ xs) ys = refl
silent-append (complete ok ∷ xs) ys = refl
silent-append (x ∷ xs) ys = silent-append xs ys

ended-append : (xs ys : List Action) → ended (xs ++ ys) ≡ ended xs || ended ys
ended-append [] ys = refl
ended-append (on_disconnect ∷ xs) ys = refl
ended-append (x ∷ xs) ys = ended-append xs ys

orderly-append :
    (xs ys : List Action)
    → orderly (xs ++ ys) ≡ orderly xs && (if ended xs then silent ys else orderly ys)
orderly-append [] ys = refl
orderly-append (on_disconnect ∷ xs) ys = silent-append xs ys
orderly-append (x ∷ xs) ys = orderly-append xs ys

num_complete-append :
    (xs ys : List Action) → num_complete (xs ++ ys) ≡ num_complete xs + num_complete ys
num_complete-append [] ys = omega arith
num_complete-append (complete ok ∷ xs) ys = omega (arith, num_complete-append xs ys)
num_complete-append (x ∷ xs) ys = num_complete-append xs ys

ruleset reports = (arith, orderly-append, ended-append, num_complete-append)

record Told (t : Strand) : Type 0 where
  order : orderly t.trace ≡ true
  over : ended t.trace ≡ true → (t.session.is_open ≡ false) × (steps t ≡ 0)
  once : num_complete t.trace + steps t ≡ 1

module _ (t : Strand) (v : Inv t) (w : Told t) where
  connect-Told :
      (host : Text) (port : ℕ) (resource : Text) (headers : Assoc Text Text)
      → t.unstarted ≡ true
      → Ensures Told (fire t (connect host port resource headers))
  unfolding fire on_async_connect
  connect-Told host port resource headers e = grind reports

  resolved-Told : (ec : ErrorCode) → t.resolving ≡ true → Ensures Told (fire t (resolved ec))
  unfolding fire on_resolve
  resolved-Told ec e = grind reports

  tcp_connected-Told :
      (ec : ErrorCode) (sni : Bool)
      → t.connecting ≡ true
      → Ensures Told (fire t (tcp_connected ec sni))
  unfolding fire on_tcp_connect
  tcp_connected-Told ec sni e = grind reports

  ssl_shaken-Told : (ec : ErrorCode) → t.securing ≡ true → Ensures Told (fire t (ssl_shaken ec))
  unfolding fire on_ssl_handshake
  ssl_shaken-Told ec e = grind reports

  shaken-Told : (ec : ErrorCode) → t.shaking ≡ true → Ensures Told (fire t (shaken ec))
  unfolding fire on_websocket_handshake
  shaken-Told ec e = grind reports

  send-Told : (m : OutgoingMessage) → Ensures Told (fire t (send m))
  unfolding fire on_send
  send-Told m =
      let q = t.session.write_queue in grind (reports, is_empty_snoc {0} q m, length_snoc {0} q m)

  close-Told : Ensures Told (fire t close)
  unfolding fire on_close
  close-Told = grind reports

  read-Told :
      (ec : ErrorCode) (b : Bool) (m : Text)
      → Enabled t (read_done ec b m)
      → Ensures Told (fire t (read_done ec b m))
  unfolding fire on_read
  read-Told ec b m e = grind reports

  write-Told : (ec : ErrorCode) → Enabled t (write_done ec) → Ensures Told (fire t (write_done ec))
  unfolding fire on_write
  write-Told ec e = grind reports

  close_done-Told : Ensures Told (fire t close_done)
  unfolding fire
  close_done-Told = ground arith

fire-Told : (t : Strand) (e : Event) → Inv t → Told t → Enabled t e → Ensures Told (fire t e)
fire-Told t (connect host port resource headers) v w e =
    connect-Told t v w host port resource headers e
fire-Told t (resolved ec) v w e = resolved-Told t v w ec e
fire-Told t (tcp_connected ec sni) v w e = tcp_connected-Told t v w ec sni e
fire-Told t (ssl_shaken ec) v w e = ssl_shaken-Told t v w ec e
fire-Told t (shaken ec) v w e = shaken-Told t v w ec e
fire-Told t (send m) v w e = send-Told t v w m
fire-Told t close v w e = close-Told t v w
fire-Told t (read_done ec b m) v w e = read-Told t v w ec b m e
fire-Told t (write_done ec) v w e = write-Told t v w ec e
fire-Told t close_done v w e = close_done-Told t v w

Reach-Told : (ssl : Bool) {t : Strand} → Reach ssl t → Told t
unfolding new_strand
Reach-Told ssl (here e) = subst Told (sym e) (ground arith)
Reach-Told ssl (next {t} e r enabled step) =
    subst (Ensures Told) step (fire-Told t e (Reach-Inv ssl r) (Reach-Told ssl r) enabled)

-- In every state that a client session can reach, its attempt was reported complete exactly once
-- if no step of it is outstanding, and not at all before.
pub completed_once : (ssl : Bool) {t : Strand} → Reach ssl t → num_complete t.trace + steps t ≡ 1
completed_once ssl r = (Reach-Told ssl r).once

-- After the end of its connection a client session reports no message, no content, no completion
-- and no second end. It may still log.
pub client_reports_orderly : (ssl : Bool) {t : Strand} → Reach ssl t → orderly t.trace ≡ true
client_reports_orderly ssl r = (Reach-Told ssl r).order
