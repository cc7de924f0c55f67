-- ===== src/Service/Simulation.antt =====
-- Each session of the running server behaves as it does by itself: what the server does to it is
-- a run of its strand.
use websockets.Prelude.{
  Whenever, ℕ, ◌≡◌, refl, sym, ap, subst, Bool, Option, none, some, List, inl, inr,
}
use websockets.Text.{Text}
use websockets.Server.Clients.{register_ws_client, StartResult, started, failed, start}
use websockets.Server.Lifecycle.{pick}
use websockets.Session.{success}
use websockets.Session.Strand.{Strand, accept_done, fire, new_strand}
use websockets.Session.Strand as Strand
use websockets.Session.Strand.Steady.{Moved}
use websockets.Service.{
  World, Event, Post, sends, closes, handler_of, ran, after_start, step, Enabled, Reach, here, next,
  accepted, refused, acts, delivers, starts, stops, shuts_down, takes_id, removes, sends_to,
  broadcasts, adds_uri, removes_uri,
}
use websockets.Service.Links.{set_elim}

ran-Moved :
    (w : World) (k : ℕ) (e : Strand.Event) (o : Option Strand)
    → Strand.Enabled (w.sessions k) e
    → fire (w.sessions k) e ≡ o
    → (j : ℕ) → Whenever (λ v. Moved (w.sessions j) (v.sessions j)) (ran w k o)
ran-Moved w k e none enabled fired j = tt
ran-Moved w k e (some u) enabled fired j =
    set_elim (λ i t. Moved (w.sessions i) t) w.sessions k u j
      (λ same. subst (λ i. Moved (w.sessions i) u) (sym same) (inr (e, enabled, fired)))
      (λ other. inl refl)

pub after_start-sessions : (w : World) (r : StartResult) → (after_start w r).sessions ≡ w.sessions
after_start-sessions w (started s effects) = refl
after_start-sessions w (failed e) = refl

handler-Enabled : (t : Strand) (p : Post) → Strand.Enabled t (handler_of p)
handler-Enabled t (sends payload) = tt
handler-Enabled t closes = tt

pub step-Moved :
    (w : World) (e : Event)
    → Enabled w e
    → (j : ℕ) → Whenever (λ v. Moved (w.sessions j) (v.sessions j)) (step w e)
unfolding step
step-Moved w (accepted k) (waits, room) j =
    let t = w.sessions k in
    let r = register_ws_client w.server k t.session.target t.session.is_ssl in
    ran-Moved (record w { server = r.0 }) k (accept_done success (some r.1)) _ waits refl j
step-Moved w (refused k ec) (waits, fail) j = ran-Moved w k (accept_done ec (some 0)) _ waits refl j
step-Moved w (acts k e) (internal, enabled) j = ran-Moved w k e _ enabled refl j
step-Moved w (delivers n) enabled j = delivered (pick n w.inbox) j
  where
    delivered :
        (o : Option ((ℕ × Post) × List (ℕ × Post))) (j : ℕ)
        → Whenever
            (λ v. Moved (w.sessions j) (v.sessions j))
            (elim o as (λ _. Option World) [
              | none ↦ some w
              | some ((k, p), rest) ↦
                  ran (record w { inbox = rest }) k (fire (w.sessions k) (handler_of p))
            ])
    delivered none j = inl refl
    delivered (some ((k, p), rest)) j =
        ran-Moved (record w { inbox = rest }) k (handler_of p) _ (handler-Enabled (w.sessions k) p)
          refl j
step-Moved w (starts acceptor bound cbs) enabled j =
    inl (ap (λ (f : ℕ → Strand). f j) (after_start-sessions w (start w.server acceptor bound cbs)))
step-Moved w stops enabled j = inl refl
step-Moved w shuts_down enabled j = inl refl
step-Moved w takes_id enabled j = inl refl
step-Moved w (removes id) enabled j = inl refl
step-Moved w (sends_to id payload) enabled j = inl refl
step-Moved w (broadcasts uri payload) enabled j = inl refl
step-Moved w (adds_uri uri cbs) enabled j = inl refl
step-Moved w (removes_uri uri) enabled j = inl refl

-- What a session has gone through is a run of its strand from the state in which it was made.
pub session_runs :
    {w : World} (k : ℕ)
    → Reach w
    → (cap : ℕ) × (ssl : Bool) × (target : Text) × Strand.Reach
        (new_strand cap ssl target)
        (w.sessions k)
session_runs k (here {w} n) = (
  n.settings.max_session_backlog,
  n.ssl k,
  n.target k,
  subst
      (λ (f : ℕ → Strand).
        Strand.Reach (new_strand n.settings.max_session_backlog (n.ssl k) (n.target k)) (f k))
      (sym n.sessions_are_new) Strand.here,
)
session_runs k (next {w} e r enabled stepped) =
    let (cap, ssl, target, runs) = session_runs k r in
    (
      cap,
      ssl,
      target,
      elim (subst (Whenever (λ (v : World). Moved (w.sessions k) (v.sessions k))) stepped
          (step-Moved w e enabled k)) [
            | inl same ↦ subst (Strand.Reach (new_strand cap ssl target)) (sym same) runs
            | inr (e', enabled', fired) ↦ Strand.next e' runs enabled' fired
          ],
    )
