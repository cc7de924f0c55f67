-- ===== src/Session/Strand/Backlog.antt =====
-- The backlog of a session is bounded, and a full backlog is logged once.
use websockets.Prelude.{
  Ensures, is_empty_snoc, length_snoc, ℕ, ◌≡◌, ◌+◌, ◌≤◌, ◌<◌, subst, Bool, true, false, Option,
  none, some, List, [], ◌∷◌, ◌++◌, if◌then◌else◌, arith, length, length-append,
}
use websockets.Text.{Text}
use websockets.Payload.{Payload}
use websockets.Session.{
  ErrorCode, Action, log_backlog_full, on_send, on_close, on_accept, on_read, on_write,
}
use websockets.Session.Strand.{
  Strand, Event, accept_done, send, close, read_done, write_done, close_done, fire, Enabled,
  new_strand, Reach, here, next,
}
use websockets.Session.Strand.Safety.{Inv, Reach-Inv}

-- How often a full backlog was logged.
abbrev pub num_full : List Action → ℕ
num_full [] = 0
num_full (log_backlog_full ∷ rest) = 1 + num_full rest
num_full (_ ∷ rest) = num_full rest

num_full-append : (xs ys : List Action) → num_full (xs ++ ys) ≡ num_full xs + num_full ys
num_full-append [] ys = omega arith
num_full-append (log_backlog_full ∷ xs) ys = omega (arith, num_full-append xs ys)
num_full-append (x ∷ xs) ys = num_full-append xs ys

record Bounded (cap : ℕ) (t : Strand) : Type 0 where
  limit : t.session.max_session_backlog ≡ cap
  room : 0 < cap → length t.session.write_queue ≤ cap
  logged : num_full t.trace ≤ (if t.session.drop_logged then 1 else 0)

module _ (cap : ℕ) (t : Strand) (v : Inv t) (w : Bounded cap t) where
  close-Bounded : Ensures (Bounded cap) (fire t close)
  unfolding fire on_close
  close-Bounded = grind (arith, num_full-append)

  close_done-Bounded : Ensures (Bounded cap) (fire t close_done)
  unfolding fire
  close_done-Bounded = grind (arith, num_full-append)

  read-Bounded :
      (ec : ErrorCode) (b : Bool) (m : Text) → Ensures (Bounded cap) (fire t (read_done ec b m))
  unfolding fire on_read
  read-Bounded ec b m = grind (arith, num_full-append)

  write-Bounded :
      (ec : ErrorCode) → Enabled t (write_done ec) → Ensures (Bounded cap) (fire t (write_done ec))
  unfolding fire on_write
  write-Bounded ec e = grind (arith, num_full-append)

  send-Bounded : (p : Payload) → Ensures (Bounded cap) (fire t (send p))
  unfolding fire on_send
  send-Bounded p =
      let q = t.session.write_queue in
      grind (
        arith,
        num_full-append,
        is_empty_snoc {0} q p,
        length_snoc {0} q p,
        length-append {0} q (p ∷ []),
      )

  accept-Bounded :
      (ec : ErrorCode) (r : Option ℕ)
      → t.accepting ≡ true
      → Ensures (Bounded cap) (fire t (accept_done ec r))
  unfolding fire on_accept
  accept-Bounded ec none a = grind (arith, num_full-append)
  accept-Bounded ec (some id) a = grind (arith, num_full-append)

fire-Bounded :
    (cap : ℕ) (t : Strand) (e : Event)
    → Inv t
    → Bounded cap t
    → Enabled t e
    → Ensures (Bounded cap) (fire t e)
fire-Bounded cap t (accept_done ec r) v w e = accept-Bounded cap t v w ec r e
fire-Bounded cap t (send p) v w e = send-Bounded cap t v w p
fire-Bounded cap t close v w e = close-Bounded cap t v w
fire-Bounded cap t (read_done ec b m) v w e = read-Bounded cap t v w ec b m
fire-Bounded cap t (write_done ec) v w e = write-Bounded cap t v w ec e
fire-Bounded cap t close_done v w e = close_done-Bounded cap t v w

new_strand-Bounded :
    (cap : ℕ) (ssl : Bool) (target : Text) → Bounded cap (new_strand cap ssl target)
unfolding new_strand
new_strand-Bounded cap ssl target = ground arith

Reach-Bounded :
    (cap : ℕ) (ssl : Bool) (target : Text) {t : Strand}
    → Reach (new_strand cap ssl target) t
    → Bounded cap t
Reach-Bounded cap ssl target here = new_strand-Bounded cap ssl target
Reach-Bounded cap ssl target (next {t} e r enabled step) =
    subst (Ensures (Bounded cap)) step
      (fire-Bounded cap t e (Reach-Inv cap ssl target r) (Reach-Bounded cap ssl target r) enabled)

-- In every state that a session can reach, its queue is no longer than `maxSessionBacklog`, unless
-- that is 0.
pub queue_bounded :
    (cap : ℕ) (ssl : Bool) (target : Text) {t : Strand}
    → 0 < cap
    → Reach (new_strand cap ssl target) t
    → length t.session.write_queue ≤ cap
queue_bounded cap ssl target pos r = (Reach-Bounded cap ssl target r).room pos

-- A full backlog is logged at most once for a session.
logged_once :
    (cap : ℕ) (ssl : Bool) (target : Text) {t : Strand}
    → Reach (new_strand cap ssl target) t
    → num_full t.trace ≤ 1
logged_once cap ssl target {t} r =
    one _ t.session.drop_logged (Reach-Bounded cap ssl target r).logged
  where
    one : (n : ℕ) (b : Bool) → n ≤ (if b then 1 else 0) → n ≤ 1
    one n true h = h
    one n false h = omega arith
