-- ===== src/Service/Order/Runs.antt =====
-- A session writes what the server sends to it, in the order in which it is sent.
use websockets.Prelude.{Whenever, ℕ, ◌≡◌, sym, ap, subst, ◌∙◌, List, [], ◌++◌, append_assoc}
use mathlib.Core.List.Sublist
use mathlib.Core.List.{Sublist, sublist-append_left}
use websockets.Payload.{Payload}
use websockets.Session.Strand.{Strand, new_strand}
use websockets.Session.Strand.Order.{writes, written_in_order}
use websockets.Service.{World, Post}
use websockets.Service.Simulation.{session_runs}
use websockets.Service.Order.{
  sent_to, sent_to-append, fresh_posts, Ordered, Ordered-Reach, here, next,
}
use websockets.Service.Order.Flow.{Flow, step-Flow}

-- Of what was sent to a session, `arrived` has arrived, and what is queued is a part of it.
record Arrived (k : ℕ) (w : World) (log : List (ℕ × Post)) : Type 0 where
  arrived : List Payload
  in_flight : arrived ++ sent_to k w.inbox ≡ sent_to k log
  kept : Sublist (w.sessions k).accepted arrived

step-Arrived :
    (k : ℕ) (w v : World) (log made : List (ℕ × Post))
    → Arrived k w log
    → Flow k w v made
    → Arrived k v (log ++ made)
step-Arrived k w v log made a f = record {
  arrived = a.arrived ++ f.taken;
  in_flight =
      append_assoc a.arrived f.taken (sent_to k v.inbox)
      ∙ (ap (◌++◌ a.arrived) f.waiting
          ∙ (sym (append_assoc a.arrived (sent_to k w.inbox) (sent_to k made))
              ∙ (ap (λ l. l ++ sent_to k made) a.in_flight ∙ sym (sent_to-append k log made))));
  kept =
      subst (λ l. Sublist l (a.arrived ++ f.taken)) (sym f.grown)
        (Sublist.append a.kept f.in_order);
}

Ordered-Arrived : (k : ℕ) {w : World} {log : List (ℕ × Post)} → Ordered w log → Arrived k w log
unfolding new_strand
Ordered-Arrived k (here {w} n) = record {
  arrived = [];
  in_flight = ap (sent_to k) n.nothing_posted;
  kept =
      subst (λ (f : ℕ → Strand). Sublist (f k).accepted []) (sym n.sessions_are_new)
        (Sublist.refl []);
}
Ordered-Arrived k (next {w} {v} {log} e r enabled in_order stepped) =
    step-Arrived k w v log (fresh_posts e w v) (Ordered-Arrived k r) (
      subst (Whenever (λ u. Flow k w u (fresh_posts e w u))) stepped
        (step-Flow k w e enabled in_order))

-- In every run of a server and its sessions in which the posts to each session run in the order in
-- which they were made, the payloads that a session has handed to its stream are among those that
-- `SendToClient` and `Broadcast` sent to it, in the same order and none more often.
pub sent_in_order :
    {w : World} {log : List (ℕ × Post)} (k : ℕ)
    → Ordered w log
    → Sublist (writes (w.sessions k).trace) (sent_to k log)
sent_in_order {w} {log} k r =
    let a = Ordered-Arrived k r in
    let (cap, ssl, target, runs) = session_runs k (Ordered-Reach r) in
    let (rest, queued) = written_in_order cap ssl target runs in
    Sublist.trans
      (subst (Sublist (writes (w.sessions k).trace)) (sym queued)
        (sublist-append_left (writes (w.sessions k).trace) rest))
      (Sublist.trans a.kept
        (subst (Sublist a.arrived) a.in_flight (sublist-append_left a.arrived (sent_to k w.inbox))))
