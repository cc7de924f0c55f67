-- ===== src/Gateway/Safety.antt =====
-- Every socket goes its way without an accident, and only those become clients that the settings
-- let in.
use websockets.Prelude.{Ensures, ℕ, ◌≡◌, ◌≢◌, sym, subst, ◌∙◌, true, none, some}
use websockets.Assoc.{lookup, nat_key}
use websockets.Target.{parse_target}
use websockets.Server.{ServerSettings, ClientEntry, new_server}
use websockets.Server.Routing.{upgrade_allowed}
use websockets.Accept.Loop.{Fits}
use websockets.Http.Connection.Upgrade.{allowed-settings}
use websockets.Text.{Text}
use websockets.Assoc.{Assoc}
use websockets.Gateway.{
  Stage, free, detecting, talking, upgraded, dropped, Gate, Event, step, Enabled, Reach,
}
use websockets.Gateway.Stand.{Stand, Good}
use websockets.Gateway.Steps.{step-Good, Reach-Good}

-- In every state that a server reaches with its acceptor, connections and sessions, whatever may
-- happen next is handled: no session meets undefined behaviour, and no stream has two operations of
-- a kind at once. Connection ids are left. A reply that Beast refuses is handled in so far as it
-- ends its connection for good, and the program with it.
pub gate_safe :
    (settings : ServerSettings) {g : Gate} (e : Event)
    → Reach settings g
    → Enabled g e
    → step g e ≢ none
gate_safe settings {g} e r enabled stuck =
    subst (Ensures (Good settings)) stuck (step-Good settings g e (Reach-Good settings r) enabled)

-- In every state that a server reaches with its acceptor, connections and sessions, the session of
-- each client was made for a target with a path that the settings of the server let upgrade, on a
-- stream that they allow: plain without an ssl context, and ssl if it is required.
pub clients_fit_settings :
    (settings : ServerSettings) {g : Gate} (id : ℕ) (entry : ClientEntry)
    → Reach settings g
    → lookup id g.world.server.clients ≡ some entry
    → let session = (g.world.sessions entry.session).session in
      (path : Text) × (parameters : Assoc Text Text) × (parse_target session.target
        ≡ some (path, parameters))
      × (upgrade_allowed g.world.server path ≡ true)
      × Fits settings session.is_ssl
unfolding new_server
clients_fit_settings settings {g} id entry r found =
    let v = Reach-Good settings r in
    at_stage v (g.stages entry.session) (v.stand entry.session)
      (v.sound.linked.seated id entry found).0
  where
    at_stage :
        Good settings g
        → (stage : Stage) → Stand settings stage (g.world.sessions entry.session)
        → (g.world.sessions entry.session).session.is_open ≡ true
        → let session = (g.world.sessions entry.session).session in
          (path : Text) × (parameters : Assoc Text Text) × (parse_target session.target
            ≡ some (path, parameters))
          × (upgrade_allowed g.world.server path ≡ true)
          × Fits settings session.is_ssl
    at_stage v upgraded (a, f) o = (
      a.path,
      a.parameters,
      a.parsed,
      allowed-settings g.world.server (new_server settings) a.path v.has ∙ a.allowed,
      f,
    )
    at_stage v free q o = cc (sym o ∙ q.shut)
    at_stage v dropped q o = cc (sym o ∙ q.shut)
    at_stage v detecting (q, context, optional) o = cc (sym o ∙ q.shut)
    at_stage v (talking c) (q, goes, fits) o = cc (sym o ∙ q.shut)
