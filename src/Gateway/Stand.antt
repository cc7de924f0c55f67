-- ===== src/Gateway/Stand.antt =====
-- What a socket at each stage has come through, and what accepts, detections and the server with
-- its sessions make of it.
use websockets.Prelude.{
  Ensures, Whenever, ℕ, ◌≡◌, sym, subst, Bool, true, false, Option, none, some, [], ◌∷◌, inl, inr,
  if_elim,
}
use websockets.Assoc.{nat_key}
use websockets.Server.{ServerSettings}
use websockets.Accept as Accept
use websockets.Accept.{
  on_async_accept, on_detect, on_accept, do_accept, success, operation_aborted, other,
  has_ssl_context, fails,
}
use websockets.Accept.Loop.{Fits}
use websockets.Accept.Loop.Safety.{on_accept_cases}
use websockets.Http.Connection.{run}
use websockets.Http.Connection.Upgrade.{Allowed}
use websockets.Http.Cycle.{Conn, new_conn, start_actions}
use websockets.Http.Cycle.Stream.{Runs, run-Runs}
use websockets.Session.Strand.{Strand}
use websockets.Session.Strand.Steady.{Moved, Moved-kept}
use websockets.Service.{World, set, takes_id}
use websockets.Service as Service
use websockets.Service.Links.{set_elim}
use websockets.Service.Sound.{Sound, Keeps}
use websockets.Service.Steps.{step-Sound}
use websockets.Service.Settings.{step-settings}
use websockets.Service.Simulation.{step-Moved}
use websockets.Gateway.{
  Stage, free, detecting, talking, upgraded, dropped, Gate, staged, place, serve_with,
}
use websockets.Gateway.Frames.{Quiet, Moved-Quiet}

-- What a socket at a stage has come through, with its session.
abbrev pub Stand : ServerSettings → Stage → Strand → Type 0
Stand settings detecting t =
    Quiet t × (has_ssl_context settings ≡ true) × (settings.ssl_required ≡ false)
Stand settings (talking c) t = Quiet t × Runs c × Fits settings c.ssl
Stand settings upgraded t = Allowed settings t.session.target × Fits settings t.session.is_ssl
Stand settings _ t = Quiet t

pub record Good (settings : ServerSettings) (g : Gate) : Type 0 where
  pub sound : Sound g.world
  pub has : g.world.server.settings ≡ settings
  pub stand : (k : ℕ) → Stand settings (g.stages k) (g.world.sessions k)

Moved-Stand :
    (settings : ServerSettings) (stage : Stage) {t u : Strand}
    → Moved t u
    → Stand settings stage t
    → Stand settings stage u
Moved-Stand settings free m s = Moved-Quiet m s
Moved-Stand settings dropped m s = Moved-Quiet m s
Moved-Stand settings detecting m (q, context, optional) = (Moved-Quiet m q, context, optional)
Moved-Stand settings (talking c) m (q, goes, fit) = (Moved-Quiet m q, goes, fit)
Moved-Stand settings upgraded m (a, f) =
    let (target, stream) = Moved-kept m in
    (subst (Allowed settings) (sym target) a, subst (Fits settings) (sym stream) f)

module _ (settings : ServerSettings) where
  run-Stand :
      (t : Strand) (ssl : Bool)
      → Quiet t
      → Fits settings ssl
      → Ensures (λ stage. Stand settings stage t) (staged (Accept.run_connection ssl ∷ []))
  run-Stand t ssl q f = go (start_actions (new_conn ssl) (run ssl)) (run-Runs ssl)
    where
      go :
          (o : Option Conn)
          → Ensures (λ c. (c.ssl ≡ ssl) × Runs c) o
          → Ensures
              (λ stage. Stand settings stage t)
              (elim o as (λ _. Option Stage) [ none ↦ none | some c ↦ some (talking c) ])
      go none v = v
      go (some c) (same, r) = (q, r, subst (Fits settings) (sym same) f)

  pub detected-Stand :
      (t : Strand) (ec : Accept.ErrorCode) (ssl : Bool)
      → Stand settings detecting t
      → Ensures (λ stage. Stand settings stage t) (staged (on_detect ec ssl))
  unfolding on_detect
  detected-Stand t ec ssl (q, context, optional) =
      if_elim (λ l. Ensures (λ stage. Stand settings stage t) (staged l)) (fails ec) (λ _. q)
        (λ _. run-Stand t ssl q (fit ssl))
    where
      fit : (b : Bool) → Fits settings b
      fit true = rw context
      fit false = rw (context, optional)

  taken-Stand :
      (t : Strand) (is_open : Bool)
      → Quiet t
      → Ensures
          (λ stage. Stand settings stage t)
          (staged (on_async_accept settings true is_open success))
  unfolding on_async_accept do_accept
  taken-Stand t false q = q
  taken-Stand t true q = elim (on_accept_cases settings) [
    | inl (ssl, e, fits) ↦ rw e (run-Stand t ssl q fits)
    | inr (expiry, e, context, optional) ↦ rw e (q, context, optional)
  ]

  pub accepted-Stand :
      (t : Strand) (is_open : Bool) (ec : Accept.ErrorCode)
      → Quiet t
      → Ensures
          (λ stage. Stand settings stage t)
          (staged (on_async_accept settings true is_open ec))
  unfolding on_async_accept do_accept
  accepted-Stand t is_open success q = taken-Stand t is_open q
  accepted-Stand t is_open operation_aborted q = q
  accepted-Stand t false other q = q
  accepted-Stand t true other q = q

  -- The socket takes a stage that suits its session.
  pub place-Good :
      (g : Gate) (k : ℕ) (o : Option Stage)
      → Good settings g
      → Ensures (λ stage. Stand settings stage (g.world.sessions k)) o
      → Ensures (Good settings) (place g k o)
  place-Good g k none v s = s
  place-Good g k (some stage) v s = record {
    sound = v.sound;
    has = v.has;
    stand = λ j.
        set_elim (λ i x. Stand settings x (g.world.sessions i)) g.stages k stage j
          (λ same. subst (λ i. Stand settings stage (g.world.sessions i)) (sym same) s)
          (λ _. v.stand j);
  }

  pub serve-Good :
      (g : Gate) (e : Service.Event)
      → Good settings g
      → Service.Enabled g.world e
      → Ensures (Good settings) (serve_with g (Service.step g.world e))
  serve-Good g e v enabled =
      go (Service.step g.world e) (step-Sound g.world v.sound e enabled)
        (step-settings settings g.world e v.has) (step-Moved g.world e enabled)
    where
      go :
          (o : Option World)
          → Keeps o
          → Whenever (λ w. w.server.settings ≡ settings) o
          → ((j : ℕ) → Whenever (λ w. Moved (g.world.sessions j) (w.sessions j)) o)
          → Ensures (Good settings) (serve_with g o)
      go none keeps has moved = keeps
      go (some w) keeps has moved = record {
        sound = keeps;
        has = has;
        stand = λ j. Moved-Stand settings (g.stages j) (moved j) (v.stand j);
      }
