-- ===== src/Session/Strand/Safety.antt =====
-- No handler of a session meets undefined behaviour or starts an operation while one of its kind
-- is outstanding.
use websockets.Prelude.{
  Ensures, is_empty_snoc, length_snoc, ℕ, ◌≡◌, ◌≢◌, refl, Bool, true, false, not, ◌||◌, Option,
  none, some, is_empty, arith, subst,
}
use websockets.Text.{Text}
use websockets.Payload.{Payload}
use websockets.Session.{new_session, ErrorCode, on_send, on_close, on_accept, on_read, on_write}
use websockets.Session.Strand.{
  Strand, Event, accept_done, send, close, read_done, write_done, close_done, fire, Enabled,
  new_strand, Reach, here, next,
}

pub record Inv (t : Strand) : Type 0 where
  -- an open session writes exactly while its queue holds something
  pub pumping : t.session.is_open ≡ true → t.writing ≡ not (is_empty t.session.write_queue)
  pub idle : t.session.is_open ≡ false → is_empty t.session.write_queue ≡ true
  pub orphan : t.session.is_open ≡ false → t.failed ≡ false → t.writing || t.reading ≡ false
  pub sent : t.session.close_sent ≡ true → t.session.close_requested ≡ true
  pub drained : t.session.close_sent ≡ true → is_empty t.session.write_queue ≡ true
  pub shut : t.closing ≡ true → t.session.close_sent ≡ true
  pub fresh :
      t.accepting ≡ true
      → (t.session.is_open ≡ false)
        × (t.reading ≡ false)
        × (t.writing ≡ false)
        × (t.session.close_sent ≡ false)

close-Inv : (t : Strand) → Inv t → Ensures Inv (fire t close)
unfolding fire on_close
close-Inv t v = ground arith

close_done-Inv : (t : Strand) → Inv t → Ensures Inv (fire t close_done)
unfolding fire
close_done-Inv t v = ground arith

accept-Inv :
    (t : Strand) (ec : ErrorCode) (r : Option ℕ)
    → Inv t
    → t.accepting ≡ true
    → Ensures Inv (fire t (accept_done ec r))
unfolding fire on_accept
accept-Inv t ec none v a = ground arith
accept-Inv t ec (some id) v a = ground arith

read-Inv :
    (t : Strand) (ec : ErrorCode) (b : Bool) (m : Text)
    → Inv t
    → Enabled t (read_done ec b m)
    → Ensures Inv (fire t (read_done ec b m))
unfolding fire on_read
read-Inv t ec b m v e = ground arith

write-Inv :
    (t : Strand) (ec : ErrorCode)
    → Inv t
    → Enabled t (write_done ec)
    → Ensures Inv (fire t (write_done ec))
unfolding fire on_write
write-Inv t ec v e = ground arith

send-Inv : (t : Strand) (p : Payload) → Inv t → Ensures Inv (fire t (send p))
unfolding fire on_send
send-Inv t p v =
    ground
      (arith, is_empty_snoc {0} t.session.write_queue p, length_snoc {0} t.session.write_queue p)

pub fire-Inv : (t : Strand) (e : Event) → Inv t → Enabled t e → Ensures Inv (fire t e)
fire-Inv t (accept_done ec r) v e = accept-Inv t ec r v e
fire-Inv t (send p) v e = send-Inv t p v
fire-Inv t close v e = close-Inv t v
fire-Inv t (read_done ec b m) v e = read-Inv t ec b m v e
fire-Inv t (write_done ec) v e = write-Inv t ec v e
fire-Inv t close_done v e = close_done-Inv t v

pub new_strand-Inv : (cap : ℕ) (ssl : Bool) (target : Text) → Inv (new_strand cap ssl target)
unfolding new_strand
new_strand-Inv cap ssl target = ground arith

pub new_strand-shut :
    (cap : ℕ) (ssl : Bool) (target : Text) → (new_strand cap ssl target).session.is_open ≡ false
unfolding new_strand new_session
new_strand-shut cap ssl target = refl

pub Reach-Inv :
    (cap : ℕ) (ssl : Bool) (target : Text) {t : Strand}
    → Reach (new_strand cap ssl target) t
    → Inv t
Reach-Inv cap ssl target here = new_strand-Inv cap ssl target
Reach-Inv cap ssl target (next {t} e r enabled step) =
    subst (Ensures Inv) step (fire-Inv t e (Reach-Inv cap ssl target r) enabled)

-- In every state that a session can reach, every handler that may run next does so without a
-- `front` or `pop_front` of an empty queue, without a second read while one is outstanding, and
-- without a write or a close while one of these is outstanding.
pub strand_safe :
    (cap : ℕ) (ssl : Bool) (target : Text) {t : Strand} (e : Event)
    → Reach (new_strand cap ssl target) t
    → Enabled t e
    → fire t e ≢ none
strand_safe cap ssl target {t} e r enabled stuck =
    subst (Ensures Inv) stuck (fire-Inv t e (Reach-Inv cap ssl target r) enabled)
