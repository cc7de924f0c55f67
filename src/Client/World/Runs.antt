-- ===== src/Client/World/Runs.antt =====
-- What the runs of a client with its sessions keep true.
use websockets.Prelude.{
  ℕ, ◌<◌, ◌≤◌, ◌≡◌, ◌≢◌, refl, sym, ap, subst, ◌∙◌, true, false, none, arith, ◌⊎◌, inl, inr,
}
use websockets.Client.Session.Strand.{Strand, fire, new_strand}
use websockets.Client.Session.Strand as Strand
use websockets.Client.Session.Strand.Safety.{Reach-Inv}
use websockets.Client.Impl.{is_current, new_client}
use websockets.Client.World.{World, Event, step, is_live, Enabled, IsNew, Reach, here, next}
use websockets.Client.World.Posts.{is_close, num_waiting}
use websockets.Client.World.Linked.{Covered, Linked, Keeps}
use websockets.Client.World.Calls.{step-Linked}

new-Linked : (w : World) → IsNew w → Linked w
unfolding new_client
new-Linked w n =
    subst Linked
      (λ i. record {
        client = sym n.client_is_new i;
        sessions = sym n.sessions_are_new i;
        inbox = sym n.nothing_posted i;
      })
      (record {
        strands = λ k. Reach-Inv false (Strand.here refl);
        covered = λ k made. absurd (omega (arith, made));
        dialled = λ k made. absurd (omega (arith, made));
        unmade = λ k far. refl;
        ended = λ flag. refl;
      })

Reach-Linked : {w : World} → Reach w → Linked w
Reach-Linked (here {w} n) = new-Linked w n
Reach-Linked (next {w} e r enabled stepped) =
    subst Keeps stepped (step-Linked w (Reach-Linked r) e enabled)

-- In every state that a client and its sessions reach, each session that was made and is open, or
-- whose connection is still being made, is the one that the client holds, or was asked to close,
-- or a close that the client posted to it still waits.
pub one_session_kept :
    {w : World} (k : ℕ)
    → Reach w
    → k < w.client.next_session
    → is_live (w.sessions k) ≡ true
    → Covered w.client (w.sessions k) w.inbox k
one_session_kept k r made live = (Reach-Linked r).covered k made live

-- In every state that a client that was shut down and its sessions reach, each session that was
-- made and is open, or whose connection is still being made, was asked to close, or a close that
-- the client posted to it still waits.
pub shut_down_sessions_close :
    {w : World} (k : ℕ)
    → Reach w
    → w.client.shutdown ≡ true
    → k < w.client.next_session
    → is_live (w.sessions k) ≡ true
    → ((w.sessions k).session.close_requested ≡ true) ⊎ (1 ≤ num_waiting is_close k w.inbox)
shut_down_sessions_close k r flag made live =
    let l = Reach-Linked r in
    elim (l.covered k made live) [
      | inl asked ↦ inl asked
      | inr (inr waits) ↦ inr waits
      | inr (inl current) ↦ cc (sym (ap (λ o. is_current o k) (l.ended flag)) ∙ current)
    ]

-- In every state that a client and its sessions reach, no event that may happen next makes a
-- session meet undefined behaviour or start an operation that its stream cannot take.
client_world_safe : {w : World} (e : Event) → Reach w → Enabled w e → step w e ≢ none
client_world_safe {w} e r enabled stuck =
    subst Keeps stuck (step-Linked w (Reach-Linked r) e enabled)
