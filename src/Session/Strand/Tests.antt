-- ===== src/Session/Strand/Tests.antt =====
-- Runs of a session.
use websockets.Prelude.{
  ◌≡◌, ◌≢◌, ◌≤◌, refl, true, false, Option, none, some, List, ◌++◌, length, arith,
}
use websockets.Text.{codes}
use websockets.Payload.{Payload, text}
use websockets.Session.{success, on_accept, on_send, on_close, on_write}
use websockets.Session.Strand.{
  Strand, accept_done, send, close, write_done, new_strand, fire, Reach, here, next,
}
use websockets.Session.Strand.Safety.{strand_safe}
use websockets.Session.Strand.Reports.{reports_orderly, orderly}
use websockets.Session.Strand.Order.{written_in_order, close_after_writes, writes}
use websockets.Session.Strand.Backlog.{queue_bounded}
use websockets.Session.Strand.Flush.{write_all-closes, write_all}

-- The session registered, two texts queued, and a third refused by the backlog of two.
abbrev start_strand : Strand
start_strand = new_strand 2 false (codes "/chat")

abbrev or_start : Option Strand → Strand
or_start none = start_strand
or_start (some t) = t

abbrev opened : Strand
opened = or_start (fire start_strand (accept_done success (some 1)))

abbrev sent_one : Strand
sent_one = or_start (fire opened (send (text (codes "a"))))

abbrev sent_two : Strand
sent_two = or_start (fire sent_one (send (text (codes "b"))))

abbrev sent_three : Strand
sent_three = or_start (fire sent_two (send (text (codes "c"))))

abbrev asked : Strand
asked = or_start (fire sent_two close)

abbrev wrote_one : Strand
wrote_one = or_start (fire asked (write_done success))

abbrev wrote_two : Strand
wrote_two = or_start (fire wrote_one (write_done success))

opened-Reach : Reach start_strand opened
unfolding fire new_strand on_accept
opened-Reach = next (accept_done success (some 1)) here refl refl

sent_two-Reach : Reach start_strand sent_two
unfolding fire new_strand on_send on_accept
sent_two-Reach =
    next (send (text (codes "b"))) (next (send (text (codes "a"))) opened-Reach tt refl) tt refl

sent_three-Reach : Reach start_strand sent_three
unfolding fire new_strand on_send on_accept
sent_three-Reach = next (send (text (codes "c"))) sent_two-Reach tt refl

asked-Reach : Reach start_strand asked
unfolding fire new_strand on_accept on_send on_close on_write
asked-Reach = next close sent_two-Reach tt refl

wrote_two-Reach : Reach start_strand wrote_two
unfolding fire new_strand on_accept on_send on_close on_write
wrote_two-Reach =
    next (write_done success) (next (write_done success) asked-Reach (refl, λ e. cc) refl)
      (refl, λ e. cc) refl

strand_safe_example : fire asked (write_done success) ≢ none
unfolding fire new_strand on_accept on_send on_close on_write
strand_safe_example =
    strand_safe 2 false (codes "/chat") (write_done success) asked-Reach (refl, λ e. cc)

reports_orderly_example : orderly wrote_two.trace ≡ true
reports_orderly_example = reports_orderly 2 false (codes "/chat") wrote_two-Reach

written_in_order_example :
    (rest : List Payload) × (sent_three.accepted ≡ writes sent_three.trace ++ rest)
written_in_order_example = written_in_order 2 false (codes "/chat") sent_three-Reach

close_after_writes_example : writes wrote_two.trace ≡ wrote_two.accepted
unfolding fire new_strand on_accept on_send on_close on_write
close_after_writes_example = close_after_writes 2 false (codes "/chat") wrote_two-Reach refl refl

queue_bounded_example : length sent_three.session.write_queue ≤ 2
queue_bounded_example = queue_bounded 2 false (codes "/chat") (omega arith) sent_three-Reach

write_all-closes_example :
    (u : Strand) × (write_all (length asked.session.write_queue) asked ≡ some u)
    × (u.session.close_sent ≡ true)
    × (writes u.trace ≡ u.accepted)
unfolding fire new_strand on_accept on_send on_close on_write
write_all-closes_example = write_all-closes 2 false (codes "/chat") asked-Reach refl refl refl
