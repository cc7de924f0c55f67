-- ===== src/Session/Strand/Flush.antt =====
-- After `Close` the queue is flushed: once its payloads are written, the close is sent.
use websockets.Prelude.{
  Ensures, is_empty_snoc, length_snoc, ℕ, zero, suc, ◌≡◌, refl, ap, subst, Bool, true, false,
  Option, none, some, List, [], ◌∷◌, is_empty, arith, length, Option-cases, inl, inr,
}
use websockets.Text.{Text}
use websockets.Payload.{Payload}
use websockets.Session.{ErrorCode, success, on_send, on_close, on_accept, on_read, on_write}
use websockets.Session.Strand.{
  Strand, Event, accept_done, send, close, read_done, write_done, close_done, fire, Enabled,
  new_strand, Reach, here, next,
}
use websockets.Session.Strand.Safety.{Inv, Reach-Inv}
use websockets.Session.Strand.Order.{writes, close_after_writes}

-- A close that was requested is sent as soon as nothing is queued.
abbrev Prompt : Strand → Type 0
Prompt t =
    t.session.is_open ≡ true
    → t.session.close_requested ≡ true
    → is_empty t.session.write_queue ≡ true
    → t.session.close_sent ≡ true

module _ (t : Strand) (v : Inv t) (w : Prompt t) where
  send-Prompt : (p : Payload) → Ensures Prompt (fire t (send p))
  unfolding fire on_send
  send-Prompt p =
      let q = t.session.write_queue in ground (arith, is_empty_snoc {0} q p, length_snoc {0} q p)

  close-Prompt : Ensures Prompt (fire t close)
  unfolding fire on_close
  close-Prompt = ground arith

  close_done-Prompt : Ensures Prompt (fire t close_done)
  unfolding fire
  close_done-Prompt = w

  read-Prompt :
      (ec : ErrorCode) (b : Bool) (m : Text)
      → Enabled t (read_done ec b m)
      → Ensures Prompt (fire t (read_done ec b m))
  unfolding fire on_read
  read-Prompt ec b m e = ground arith

  write-Prompt :
      (ec : ErrorCode) → Enabled t (write_done ec) → Ensures Prompt (fire t (write_done ec))
  unfolding fire on_write
  write-Prompt ec e = ground arith

  accept-Prompt :
      (ec : ErrorCode) (r : Option ℕ)
      → t.accepting ≡ true
      → Ensures Prompt (fire t (accept_done ec r))
  unfolding fire on_accept
  accept-Prompt ec none a = ground arith
  accept-Prompt ec (some id) a = ground arith

fire-Prompt : (t : Strand) (e : Event) → Inv t → Prompt t → Enabled t e → Ensures Prompt (fire t e)
fire-Prompt t (accept_done ec r) v w e = accept-Prompt t v w ec r e
fire-Prompt t (send p) v w e = send-Prompt t v w p
fire-Prompt t close v w e = close-Prompt t v w
fire-Prompt t (read_done ec b m) v w e = read-Prompt t v w ec b m e
fire-Prompt t (write_done ec) v w e = write-Prompt t v w ec e
fire-Prompt t close_done v w e = close_done-Prompt t v w

Reach-Prompt :
    (cap : ℕ) (ssl : Bool) (target : Text) {t : Strand}
    → Reach (new_strand cap ssl target) t
    → Prompt t
unfolding new_strand
Reach-Prompt cap ssl target here = λ o. cc
Reach-Prompt cap ssl target (next {t} e r enabled step) =
    subst (Ensures Prompt) step
      (fire-Prompt t e (Reach-Inv cap ssl target r) (Reach-Prompt cap ssl target r) enabled)

-- The stream writes `n` payloads, one after the other, without an error.
pub write_all : ℕ → Strand → Option Strand
unfolding fire
write_all zero t = some t
write_all (suc n) t = elim (fire t (write_done success)) [ none ↦ none | some u ↦ write_all n u ]

-- An open session that is asked to close.
abbrev Leaving : List Payload → Strand → Type 0
Leaving q t =
    (t.session.is_open ≡ true)
    × (t.session.close_requested ≡ true)
    × (t.failed ≡ false)
    × (t.session.write_queue ≡ q)

write_one :
    (t : Strand) (p : Payload) (ps : List Payload)
    → Inv t
    → Leaving (p ∷ ps) t
    → (t.writing ≡ true) × Ensures (Leaving ps) (fire t (write_done success))
unfolding fire on_write
write_one t p ps v l = ground arith

flush :
    (cap : ℕ) (ssl : Bool) (target : Text) (q : List Payload) {t : Strand}
    → Reach (new_strand cap ssl target) t
    → Leaving q t
    → (u : Strand) × (write_all (length q) t ≡ some u)
      × Reach (new_strand cap ssl target) u
      × Leaving [] u
unfolding write_all
flush cap ssl target [] {t} r l = (t, refl, r, l)
flush cap ssl target (p ∷ ps) {t} r l =
    let (writing, after) = write_one t p ps (Reach-Inv cap ssl target r) l in
    elim (Option-cases (fire t (write_done success))) [
      | inl e ↦ absurd (subst (Ensures (Leaving ps)) e after)
      | inr (u, e) ↦
          let r' = next (write_done success) r (writing, λ f. cc (f, l.2)) e in
          let (z, run, r'', l') =
            flush cap ssl target ps r' (subst (Ensures (Leaving ps)) e after) in
          (z, rw (e, write_all) run, r'', l')
    ]

-- A session that is open, has been asked to close and whose stream has not failed sends its close
-- once its queue is written, and has then handed over every payload that it had queued.
pub write_all-closes :
    (cap : ℕ) (ssl : Bool) (target : Text) {t : Strand}
    → Reach (new_strand cap ssl target) t
    → t.session.is_open ≡ true
    → t.session.close_requested ≡ true
    → t.failed ≡ false
    → (u : Strand) × (write_all (length t.session.write_queue) t ≡ some u)
      × (u.session.close_sent ≡ true)
      × (writes u.trace ≡ u.accepted)
write_all-closes cap ssl target {t} r o c f =
    let (u, run, r', l) = flush cap ssl target t.session.write_queue r (o, c, f, refl) in
    let sent = Reach-Prompt cap ssl target r' l.0 l.1 (ap is_empty l.3) in
    (u, run, sent, close_after_writes cap ssl target r' l.0 sent)
