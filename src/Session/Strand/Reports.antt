-- ===== src/Session/Strand/Reports.antt =====
-- What a session reports to the server: its end at most once, and nothing after that.
use websockets.Prelude.{
  Ensures, is_empty_snoc, length_snoc, ℕ, ◌≡◌, refl, subst, Bool, true, false, ◌&&◌, ◌||◌, Option,
  none, some, List, [], ◌∷◌, ◌++◌, if◌then◌else◌, arith,
}
use websockets.Text.{Text}
use websockets.Payload.{Payload}
use websockets.Session.{
  ErrorCode, Action, on_message, on_content, on_closed, on_send, on_close, on_accept, on_read,
  on_write,
}
use websockets.Session.Strand.{
  Strand, Event, accept_done, send, close, read_done, write_done, close_done, fire, Enabled,
  new_strand, Reach, here, next,
}
use websockets.Session.Strand.Safety.{Inv, Reach-Inv}

-- The end was reported.
abbrev pub ended : List Action → Bool
ended [] = false
ended (on_closed id ∷ rest) = true
ended (_ ∷ rest) = ended rest

-- Nothing is reported to the server's client callbacks.
abbrev pub silent : List Action → Bool
silent [] = true
silent (on_closed id ∷ rest) = false
silent (on_message id m ∷ rest) = false
silent (on_content id m ∷ rest) = false
silent (_ ∷ rest) = silent rest

-- After the end nothing more is reported.
abbrev pub orderly : List Action → Bool
orderly [] = true
orderly (on_closed id ∷ rest) = silent rest
orderly (_ ∷ rest) = orderly rest

silent-append : (xs ys : List Action) → silent (xs ++ ys) ≡ silent xs && silent ys
silent-append [] ys = refl
silent-append (on_closed id ∷ xs) ys = refl
silent-append (on_message id m ∷ xs) ys = refl
silent-append (on_content id m ∷ xs) ys = refl
silent-append (x ∷ xs) ys = silent-append xs ys

ended-append : (xs ys : List Action) → ended (xs ++ ys) ≡ ended xs || ended ys
ended-append [] ys = refl
ended-append (on_closed id ∷ xs) ys = refl
ended-append (x ∷ xs) ys = ended-append xs ys

orderly-append :
    (xs ys : List Action)
    → orderly (xs ++ ys) ≡ orderly xs && (if ended xs then silent ys else orderly ys)
orderly-append [] ys = refl
orderly-append (on_closed id ∷ xs) ys = silent-append xs ys
orderly-append (x ∷ xs) ys = orderly-append xs ys

-- A session whose end was reported is not open and will not be.
record Told (t : Strand) : Type 0 where
  order : orderly t.trace ≡ true
  over : ended t.trace ≡ true → (t.session.is_open ≡ false) × (t.accepting ≡ false)

module _ (t : Strand) (v : Inv t) (w : Told t) where
  read-Told :
      (ec : ErrorCode) (b : Bool) (m : Text)
      → Enabled t (read_done ec b m)
      → Ensures Told (fire t (read_done ec b m))
  unfolding fire on_read
  read-Told ec b m e = grind (arith, orderly-append, ended-append)

  write-Told : (ec : ErrorCode) → Enabled t (write_done ec) → Ensures Told (fire t (write_done ec))
  unfolding fire on_write
  write-Told ec e = grind (arith, orderly-append, ended-append)

  send-Told : (p : Payload) → Ensures Told (fire t (send p))
  unfolding fire on_send
  send-Told p =
      let q = t.session.write_queue in
      grind (arith, orderly-append, ended-append, is_empty_snoc {0} q p, length_snoc {0} q p)

  close-Told : Ensures Told (fire t close)
  unfolding fire on_close
  close-Told = grind (arith, orderly-append, ended-append)

  close_done-Told : Ensures Told (fire t close_done)
  unfolding fire
  close_done-Told = ground arith

  accept-Told :
      (ec : ErrorCode) (r : Option ℕ)
      → t.accepting ≡ true
      → Ensures Told (fire t (accept_done ec r))
  unfolding fire on_accept
  accept-Told ec none a = grind (arith, orderly-append, ended-append)
  accept-Told ec (some id) a = grind (arith, orderly-append, ended-append)

fire-Told : (t : Strand) (e : Event) → Inv t → Told t → Enabled t e → Ensures Told (fire t e)
fire-Told t (accept_done ec r) v w e = accept-Told t v w ec r e
fire-Told t (send p) v w e = send-Told t v w p
fire-Told t close v w e = close-Told t v w
fire-Told t (read_done ec b m) v w e = read-Told t v w ec b m e
fire-Told t (write_done ec) v w e = write-Told t v w ec e
fire-Told t close_done v w e = close_done-Told t v w

new_strand-Told : (cap : ℕ) (ssl : Bool) (target : Text) → Told (new_strand cap ssl target)
unfolding new_strand
new_strand-Told cap ssl target = ground arith

Reach-Told :
    (cap : ℕ) (ssl : Bool) (target : Text) {t : Strand}
    → Reach (new_strand cap ssl target) t
    → Told t
Reach-Told cap ssl target here = new_strand-Told cap ssl target
Reach-Told cap ssl target (next {t} e r enabled step) =
    subst (Ensures Told) step
      (fire-Told t e (Reach-Inv cap ssl target r) (Reach-Told cap ssl target r) enabled)

-- In every state that a session can reach, it has reported to the server no message, no content
-- and no second end after the end of the client.
pub reports_orderly :
    (cap : ℕ) (ssl : Bool) (target : Text) {t : Strand}
    → Reach (new_strand cap ssl target) t
    → orderly t.trace ≡ true
reports_orderly cap ssl target r = (Reach-Told cap ssl target r).order
