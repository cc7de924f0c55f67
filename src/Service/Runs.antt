-- ===== src/Service/Runs.antt =====
-- What the runs of a server with its sessions keep true: clients and open sessions belong together.
use websockets.Prelude.{ℕ, ◌≡◌, ◌≢◌, sym, ap, subst, ◌∙◌, true, false, none, some, ◌⊎◌, inl, inr}
use websockets.Assoc.{lookup, nat_key}
use websockets.Server.{ServerSettings, ClientEntry, new_server}
use websockets.Server.Clients.Invariant.{new_server-WellFormed}
use websockets.Session.Strand.{Strand}
use websockets.Session.Strand.Safety.{Inv, new_strand-Inv, new_strand-shut}
use websockets.Session.Strand.Face.{face_of}
use websockets.Service.{World, IsNew, Reach, here, next}
use websockets.Service.Links.{HasClose, Linked, Covered}
use websockets.Service.Sound.{faces, Sound, Keeps}
use websockets.Service.Steps.{step-Sound}

-- A new server whose sessions are all sound and not open.
pub shut-Sound :
    (settings : ServerSettings) (w : World)
    → w.server ≡ new_server settings
    → ((k : ℕ) → Inv (w.sessions k))
    → ((k : ℕ) → (w.sessions k).session.is_open ≡ false)
    → Sound w
unfolding new_server lookup
shut-Sound settings w new inv shut = record {
  strands = inv;
  linked =
      subst (λ s. Linked s (faces w.sessions) w.inbox) (sym new)
        (record {
          well = new_server-WellFormed settings;
          seated = λ id e found. cc;
          known = λ k o. absurd (none_open k o);
          apart = λ j k o. absurd (none_open j o);
          covered = λ k o. absurd (none_open k o);
        });
}
  where
    none_open : (k : ℕ) → (w.sessions k).session.is_open ≢ true
    none_open k o = cc (sym o ∙ shut k)

new-Sound : (w : World) → IsNew w → Sound w
new-Sound w n =
    shut-Sound n.settings w n.server_is_new
      (λ k.
        subst (λ (f : ℕ → Strand). Inv (f k)) (sym n.sessions_are_new)
          (new_strand-Inv n.settings.max_session_backlog (n.ssl k) (n.target k)))
      (λ k.
        ap (λ (f : ℕ → Strand). (f k).session.is_open) n.sessions_are_new
        ∙ new_strand-shut n.settings.max_session_backlog (n.ssl k) (n.target k))

pub Reach-Sound : {w : World} → Reach w → Sound w
Reach-Sound (here {w} n) = new-Sound w n
Reach-Sound (next {w} e r enabled stepped) =
    subst Keeps stepped (step-Sound w (Reach-Sound r) e enabled)

-- In every state that a server and its sessions reach, the session of each client is open, and
-- the id of the client is the one that the session reports at its end.
clients_are_open :
    {w : World} (id : ℕ) (entry : ClientEntry)
    → Reach w
    → lookup id w.server.clients ≡ some entry
    → let session = (w.sessions entry.session).session in
      (session.is_open ≡ true) × (session.client_id ≡ id)
clients_are_open id entry r found = (Reach-Sound r).linked.seated id entry found

-- In every state that a server and its sessions reach, each open session is that of the client
-- whose id it has, or it was asked to close, or a close that the server posted to it still waits.
pub no_session_forgotten :
    {w : World} (k : ℕ)
    → Reach w
    → (w.sessions k).session.is_open ≡ true
    → Covered w.server (face_of (w.sessions k).session) w.inbox k
no_session_forgotten k r o = (Reach-Sound r).linked.covered k o

-- In every state that a server without an acceptor and its sessions reach, each open session was
-- asked to close, or a close that the server posted to it still waits.
pub stopped_sessions_close :
    {w : World} (k : ℕ)
    → Reach w
    → w.server.acceptor ≡ none
    → (w.sessions k).session.is_open ≡ true
    → ((w.sessions k).session.close_requested ≡ true) ⊎ HasClose k w.inbox
unfolding lookup
stopped_sessions_close {w} k r stopped o =
    let l = (Reach-Sound r).linked in
    elim (l.covered k o) [
      | inl asked ↦ inl asked
      | inr (inr waits) ↦ inr waits
      | inr (inl (e, found, its)) ↦
          absurd (nobody e (sym found ∙ ap (lookup _) (l.well.listening stopped)))
    ]
  where
    nobody : (e : ClientEntry) → some e ≢ none
    nobody e h = cc
