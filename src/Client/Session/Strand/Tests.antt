-- ===== src/Client/Session/Strand/Tests.antt =====
-- A run of a client session.
use websockets.Prelude.{length, ◌+◌, ◌≡◌, ◌≢◌, refl, true, false, Option, none, some, []}
use websockets.Text.{codes}
use websockets.Client.{OutgoingMessage, text}
use websockets.Client.Session.{
  success, on_async_connect, on_resolve, on_tcp_connect, on_websocket_handshake, on_send, on_close,
  on_write,
}
use websockets.Client.Session.Strand.{
  Strand, Event, connect, resolved, tcp_connected, shaken, send, close, write_done, new_strand,
  fire, Reach, here, next,
}
use websockets.Client.Session.Strand.Safety.{steps, client_strand_safe}
use websockets.Client.Session.Strand.Reports.{
  completed_once, client_reports_orderly, num_complete, orderly,
}
use websockets.Client.Session.Strand.Flush.{write_messages, write_messages-closes}
use websockets.Client.Session.Strand.Order.{writes}

abbrev or_new : Option Strand → Strand
or_new none = new_strand false
or_new (some t) = t

-- The steps of the connection, one after the other.
abbrev connect_event : Event
connect_event = connect (codes "localhost") 80 (codes "/") []

abbrev resolving : Strand
resolving = or_new (fire (new_strand false) connect_event)

abbrev connecting : Strand
connecting = or_new (fire resolving (resolved success))

abbrev shaking : Strand
shaking = or_new (fire connecting (tcp_connected success true))

abbrev open_strand : Strand
open_strand = or_new (fire shaking (shaken success))

abbrev hello : OutgoingMessage
hello = text (codes "hello")

abbrev sent : Strand
sent = or_new (fire open_strand (send hello))

abbrev asked : Strand
asked = or_new (fire sent close)

abbrev written : Strand
written = or_new (fire asked (write_done success))

open_strand-Reach : Reach false open_strand
unfolding fire new_strand on_async_connect on_resolve on_tcp_connect on_websocket_handshake on_send
    on_close on_write
open_strand-Reach =
    next (shaken success)
      (next (tcp_connected success true)
        (next (resolved success) (next connect_event (here refl) refl refl) refl refl) refl refl)
      refl refl

asked-Reach : Reach false asked
unfolding fire new_strand on_async_connect on_resolve on_tcp_connect on_websocket_handshake on_send
    on_close on_write
asked-Reach = next close (next (send hello) open_strand-Reach tt refl) tt refl

written-Reach : Reach false written
unfolding fire new_strand on_async_connect on_resolve on_tcp_connect on_websocket_handshake on_send
    on_close on_write
written-Reach = next (write_done success) asked-Reach (refl, λ e. cc) refl

client_strand_safe_example : fire asked (write_done success) ≢ none
unfolding fire new_strand on_async_connect on_resolve on_tcp_connect on_websocket_handshake on_send
    on_close on_write
client_strand_safe_example =
    client_strand_safe false (write_done success) asked-Reach (refl, λ e. cc)

completed_once_example : num_complete asked.trace + steps asked ≡ 1
completed_once_example = completed_once false asked-Reach

client_reports_orderly_example : orderly written.trace ≡ true
client_reports_orderly_example = client_reports_orderly false written-Reach

write_messages-closes_example :
    (u : Strand) × (write_messages (length asked.session.write_queue) asked ≡ some u)
    × (u.session.close_sent ≡ true)
    × (writes u.trace ≡ u.accepted)
unfolding fire new_strand on_async_connect on_resolve on_tcp_connect on_websocket_handshake on_send
    on_close on_write
write_messages-closes_example = write_messages-closes false asked-Reach refl refl refl
