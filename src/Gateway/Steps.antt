-- ===== src/Gateway/Steps.antt =====
-- What reads and other events of connections make of a socket, and what all events keep.
use websockets.Prelude.{
  ◌==◌, Ensures, Whenever, ℕ, ◌+◌, ◌^◌, ◌<◌, ◌≡◌, sym, ap, subst, ◌∙◌, Bool, true, Option, none,
  some, List, ◌⊎◌, inl, inr, if_elim,
}
use websockets.Assoc.{nat_key}
use websockets.Server.{Server, ServerSettings, new_server}
use websockets.Server.Clients.{take_connection_id}
use websockets.Accept.{on_async_accept}
use websockets.Accept.Loop.{Fits}
use websockets.Http.Connection.{Action, HttpRequest, on_read}
use websockets.Http.Connection.Upgrade.{Allowed, ReadBy, on_read-ReadBy, session_made}
use websockets.Http.Cycle.{Conn, fire, read_done}
use websockets.Http.Cycle.Stream.{Runs, fire-Runs}
use websockets.Session.Strand.{Strand, new_strand}
use websockets.Session.{new_session}
use websockets.Service.{World, set, takes_id}
use websockets.Service as Service
use websockets.Session.Strand.Safety.{Inv}
use websockets.Service.Runs.{shut-Sound}
use websockets.Text.{Text}
use websockets.Service.Steps.{step-Sound}
use websockets.Service.Settings.{take-fixed}
use websockets.Gateway.{
  Stage, talking, upgraded, Gate, Event, accepts, detects, reads, talks, serves, staged, or_gone,
  hand_over, has_read, has_acceptor, go_on, read_at, talk_at, step, Enabled, IsNew, Reach, here,
  next,
}
use websockets.Gateway.Frames.{Quiet, unmade-Quiet, unmade-Inv, Sound-made}
use websockets.Gateway.Stand.{Stand, Good, detected-Stand, accepted-Stand, place-Good, serve-Good}

module _ (settings : ServerSettings) where
  talk-Good :
      (g : Gate) (k : ℕ) (c : Conn) (o : Option Conn)
      → Good settings g
      → Quiet (g.world.sessions k)
      → Fits settings c.ssl
      → Ensures (λ d. (d.ssl ≡ c.ssl) × Runs d) o
      → Ensures (Good settings) (go_on g k o)
  talk-Good g k c none v q f r = r
  talk-Good g k c (some d) v q f (same, r) =
      place-Good settings g k (some (talking d)) v (q, r, subst (Fits settings) (sym same) f)

  -- The server of before, or one with one more id taken.
  server-Good :
      (g : Gate) (s : Option Server)
      → Good settings g
      → g.world.server.next_connection_id + 1 < 2 ^ 32
      → (s ≡ some g.world.server) ⊎ (s ≡ some (take_connection_id g.world.server).0)
      → Good settings (record g { world = record g.world { server = or_gone g.world.server s } })
  unfolding Service.step
  server-Good g s v room (inl same) =
      subst
        (λ o.
          Good settings (record g { world = record g.world { server = or_gone g.world.server o } }))
        (sym same) v
  server-Good g s v room (inr took) =
      subst
        (λ o.
          Good settings (record g { world = record g.world { server = or_gone g.world.server o } }))
        (sym took)
        (record {
          sound = step-Sound g.world v.sound takes_id room;
          has = ap (λ q. q.0) (take-fixed g.world.server) ∙ v.has;
          stand = v.stand;
        })

  made-Stand :
      (cap : ℕ) (ssl : Bool) (target : Text)
      → Allowed settings target
      → Fits settings ssl
      → Stand settings upgraded (new_strand cap ssl target)
  unfolding new_strand new_session
  made-Stand cap ssl target a f = (a, f)

  made-Good :
      (g : Gate) (k : ℕ) (c : Conn) (o : Option HttpRequest)
      → Good settings g
      → Quiet (g.world.sessions k)
      → Fits settings c.ssl
      → Runs c
      → Whenever (λ (r : HttpRequest). Allowed settings r.target) o
      → Good settings (hand_over g k c o)
  made-Good g k c none v q f r a = place-Good settings g k (some (talking c)) v (q, r, f)
  made-Good g k c (some request) v q f r a =
      let cap = g.world.server.settings.max_session_backlog in
      let t = new_strand cap c.ssl request.target in
      record {
        sound = Sound-made g.world k cap c.ssl request.target v.sound q;
        has = v.has;
        stand = λ j. both j t (made-Stand cap c.ssl request.target a f);
      }
    where
      both :
          (j : ℕ) (t : Strand)
          → Stand settings upgraded t
          → Stand settings (set g.stages k upgraded j) (set g.world.sessions k t j)
      both j t s =
          if_elim (λ stage. Stand settings stage (set g.world.sessions k t j)) (j == k)
            (λ e. rw e s) (λ e. rw e (v.stand j))

  read-Good :
      (g : Gate) (k : ℕ) (c : Conn) (o : Option Conn) (r : Option Server × List Action)
      → Good settings g
      → g.world.server.next_connection_id + 1 < 2 ^ 32
      → Quiet (g.world.sessions k)
      → Fits settings c.ssl
      → Ensures (λ d. (d.ssl ≡ c.ssl) × Runs d) o
      → ReadBy settings g.world.server r
      → Ensures (Good settings) (has_read g k o r)
  read-Good g k c none r v room q f runs_ a = runs_
  read-Good g k c (some d) (s, actions) v room q f (same, runs_) (a, server) =
      made-Good (record g { world = record g.world { server = or_gone g.world.server s } }) k d
        (session_made actions) (server-Good g s v room server) q
        (subst (Fits settings) (sym same) f) runs_ a

  pub step-Good :
      (g : Gate) (e : Event) → Good settings g → Enabled g e → Ensures (Good settings) (step g e)
  unfolding step
  step-Good g (accepts k ec) v enabled =
      let t = g.world.sessions k in
      place-Good settings g k _ v (
        subst
          (λ s.
            Ensures (λ stage. Stand settings stage t)
              (staged (on_async_accept s true (has_acceptor g.world.server) ec)))
          (sym v.has)
          (accepted-Stand settings t (has_acceptor g.world.server) ec
            (subst (λ stage. Stand settings stage t) enabled (v.stand k))))
  step-Good g (detects k ec ssl) v enabled =
      let t = g.world.sessions k in
      place-Good settings g k _ v (
        detected-Stand settings t ec ssl
          (subst (λ stage. Stand settings stage t) enabled (v.stand k)))
  step-Good g (reads k ec request) v (c, at, reading, room) =
      let (q, goes, fits) =
        subst (λ stage. Stand settings stage (g.world.sessions k)) at (v.stand k) in
      let s = some g.world.server in
      subst (λ stage. Ensures (Good settings) (read_at g k stage ec request)) (sym at)
        (read-Good g k c (fire c (read_done s ec request)) (on_read s ec request) v room q fits
          (fire-Runs c (read_done s ec request) goes reading)
          (on_read-ReadBy settings g.world.server v.has request ec))
  step-Good g (talks k e) v (c, at, other_, enabled) =
      let (q, goes, fits) =
        subst (λ stage. Stand settings stage (g.world.sessions k)) at (v.stand k) in
      subst (λ stage. Ensures (Good settings) (talk_at g k stage e)) (sym at)
        (talk-Good g k c (fire c e) v q fits (fire-Runs c e goes enabled))
  step-Good g (serves e) v enabled = serve-Good settings g e v enabled

  new-Good : (g : Gate) → IsNew settings g → Good settings g
  unfolding new_server
  new-Good g n = record {
    sound =
        shut-Sound settings g.world n.server_is_new
          (λ k. subst (λ (f : ℕ → Strand). Inv (f k)) (sym n.nothing_made) unmade-Inv)
          (λ k. (quiet k).shut);
    has = ap (λ (s : Server). s.settings) n.server_is_new;
    stand = λ k.
        subst (λ (f : ℕ → Stage). Stand settings (f k) (g.world.sessions k))
          (sym n.nothing_accepted) (quiet k);
  }
    where
      quiet : (k : ℕ) → Quiet (g.world.sessions k)
      quiet k = subst (λ (f : ℕ → Strand). Quiet (f k)) (sym n.nothing_made) unmade-Quiet

  pub Reach-Good : {g : Gate} → Reach settings g → Good settings g
  Reach-Good (here {g} n) = new-Good g n
  Reach-Good (next {g} e r enabled stepped) =
      subst (Ensures (Good settings)) stepped (step-Good g e (Reach-Good r) enabled)
