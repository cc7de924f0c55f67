-- ===== src/Session/Strand/Order.antt =====
-- The payloads that a session queued are written in their order, each once, and before the close.
use websockets.Prelude.{
  Ensures, is_empty_snoc, length_snoc, ℕ, ◌≡◌, refl, sym, ap, ◌∙◌, subst, Bool, true, false, Option,
  none, some, List, [], ◌∷◌, ◌++◌, is_empty, arith, append_assoc, append-nil, Bool-cases, inl, inr,
}
use websockets.Text.{Text}
use websockets.Payload.{Payload}
use websockets.Session.{
  ErrorCode, Action, async_write, on_send, on_close, on_accept, on_read, on_write,
}
use websockets.Session.Strand.{
  Strand, Event, accept_done, send, close, read_done, write_done, close_done, fire, Enabled,
  new_strand, Reach, here, next,
}
use websockets.Session.Strand.Safety.{Inv, Reach-Inv}

-- The payloads that were handed to the stream.
abbrev pub writes : List Action → List Payload
writes [] = []
writes (async_write p ∷ rest) = p ∷ writes rest
writes (_ ∷ rest) = writes rest

abbrev pub tail : List Payload → List Payload
tail [] = []
tail (x ∷ xs) = xs

writes-append : (xs ys : List Action) → writes (xs ++ ys) ≡ writes xs ++ writes ys
writes-append [] ys = refl
writes-append (async_write p ∷ xs) ys = ap (◌∷◌ p) (writes-append xs ys)
writes-append (x ∷ xs) ys = writes-append xs ys

ruleset queue_laws = (arith, writes-append, append_assoc, append-nil)

-- What waits behind the write in flight completes the list of what was queued.
record Ordered (t : Strand) : Type 0 where
  flow : t.session.is_open ≡ true → writes t.trace ++ tail t.session.write_queue ≡ t.accepted
  start : t.accepting ≡ true → (writes t.trace ≡ []) × (t.accepted ≡ [])

-- A session that is not open queues and writes nothing more.
abbrev Frozen : Strand → Strand → Type 0
Frozen t u =
    u.session.is_open ≡ false → (writes u.trace ≡ writes t.trace) × (u.accepted ≡ t.accepted)

abbrev Goes : Strand → Strand → Type 0
Goes t u = Ordered u × Frozen t u

module _ (t : Strand) (v : Inv t) (w : Ordered t) where
  close-Goes : Ensures (Goes t) (fire t close)
  unfolding fire on_close
  close-Goes = grind queue_laws

  close_done-Goes : Ensures (Goes t) (fire t close_done)
  unfolding fire
  close_done-Goes = grind queue_laws

  read-Goes :
      (ec : ErrorCode) (b : Bool) (m : Text)
      → Enabled t (read_done ec b m)
      → Ensures (Goes t) (fire t (read_done ec b m))
  unfolding fire on_read
  read-Goes ec b m e = grind queue_laws

  write-Goes :
      (ec : ErrorCode) → Enabled t (write_done ec) → Ensures (Goes t) (fire t (write_done ec))
  unfolding fire on_write
  write-Goes ec e = grind queue_laws

  send-Goes : (p : Payload) → Ensures (Goes t) (fire t (send p))
  unfolding fire on_send
  send-Goes p =
      let q = t.session.write_queue in
      grind (queue_laws, is_empty_snoc {0} q p, length_snoc {0} q p)

  accept-Goes :
      (ec : ErrorCode) (r : Option ℕ)
      → t.accepting ≡ true
      → Ensures (Goes t) (fire t (accept_done ec r))
  unfolding fire on_accept
  accept-Goes ec none a = grind queue_laws
  accept-Goes ec (some id) a = grind queue_laws

fire-Goes : (t : Strand) (e : Event) → Inv t → Ordered t → Enabled t e → Ensures (Goes t) (fire t e)
fire-Goes t (accept_done ec r) v w e = accept-Goes t v w ec r e
fire-Goes t (send p) v w e = send-Goes t v w p
fire-Goes t close v w e = close-Goes t v w
fire-Goes t (read_done ec b m) v w e = read-Goes t v w ec b m e
fire-Goes t (write_done ec) v w e = write-Goes t v w ec e
fire-Goes t close_done v w e = close_done-Goes t v w

new_strand-Ordered : (cap : ℕ) (ssl : Bool) (target : Text) → Ordered (new_strand cap ssl target)
unfolding new_strand
new_strand-Ordered cap ssl target = ground arith

module _ (cap : ℕ) (ssl : Bool) (target : Text) where
  abbrev first : Strand
  first = new_strand cap ssl target

  Reach-Ordered : {t : Strand} → Reach first t → Ordered t
  Reach-Ordered here = new_strand-Ordered cap ssl target
  Reach-Ordered (next {t} e r enabled step) =
      (subst (Ensures (Goes t)) step
        (fire-Goes t e (Reach-Inv cap ssl target r) (Reach-Ordered r) enabled)).0

  written_of :
      {t : Strand} → Reach first t → (rest : List Payload) × (t.accepted ≡ writes t.trace ++ rest)
  unfolding new_strand
  written_of here = ([], refl)
  written_of (next {t} {u} e r enabled step) =
      let (w, frozen) =
        subst (Ensures (Goes t)) step
          (fire-Goes t e (Reach-Inv cap ssl target r) (Reach-Ordered r) enabled) in
      elim (Bool-cases u.session.is_open) [
        | inl open_ ↦ (tail u.session.write_queue, sym (w.flow open_))
        | inr shut ↦
            let (rest, e') = written_of r in
            (rest, (frozen shut).1 ∙ (e' ∙ ap (λ l. l ++ rest) (sym (frozen shut).0)))
      ]

-- In every state that a session can reach, the payloads handed to the stream are the first of
-- those that were queued, in their order.
pub written_in_order :
    (cap : ℕ) (ssl : Bool) (target : Text) {t : Strand}
    → Reach (new_strand cap ssl target) t
    → (rest : List Payload) × (t.accepted ≡ writes t.trace ++ rest)
written_in_order cap ssl target r = written_of cap ssl target r

-- While a session is open, what was queued and not handed to the stream waits in its queue, behind
-- the payload that is being written.
unwritten_waits :
    (cap : ℕ) (ssl : Bool) (target : Text) {t : Strand}
    → Reach (new_strand cap ssl target) t
    → t.session.is_open ≡ true
    → t.accepted ≡ writes t.trace ++ tail t.session.write_queue
unwritten_waits cap ssl target r o = sym ((Reach-Ordered cap ssl target r).flow o)

-- While a session is open, it sends its close only after every queued payload was handed to the
-- stream.
pub close_after_writes :
    (cap : ℕ) (ssl : Bool) (target : Text) {t : Strand}
    → Reach (new_strand cap ssl target) t
    → t.session.is_open ≡ true
    → t.session.close_sent ≡ true
    → writes t.trace ≡ t.accepted
close_after_writes cap ssl target {t} r o s =
    let flow = (Reach-Ordered cap ssl target r).flow o in
    let drained = (Reach-Inv cap ssl target r).drained s in
    sym (append-nil (writes t.trace))
    ∙ (ap (◌++◌ (writes t.trace)) (sym (tail_empty _ drained)) ∙ flow)
  where
    tail_empty : (l : List Payload) → is_empty l ≡ true → tail l ≡ []
    tail_empty [] h = refl
    tail_empty (x ∷ l) h = cc
