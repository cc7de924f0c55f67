-- ===== src/Client/World/Calls.antt =====
-- The calls of the user, and so every event, keep the sessions linked to the client.
use websockets.Prelude.{
  ℕ, ◌+◌, ◌<◌, ◌≤◌, ◌≡◌, refl, sym, subst, Bool, true, false, Option, none, some, List, [], ◌∷◌,
  ◌++◌, ==_iff, if◌then◌else◌, if_elim, arith, inl, inr,
}
use websockets.Text.{Text}
use websockets.Client.{OutgoingMessage}
use websockets.Client.Session.Strand.{Strand, fire, new_strand}
use websockets.Client.Session.Strand as Strand
use websockets.Client.Session.Strand.Safety.{Inv, bit, Reach-Inv}
use websockets.Client.Impl.{
  Client, Effect, close_of, connect_session, is_current, async_connect, do_connect, shut_down,
  send_message, close, uses_ssl, log_not_connected, stop_work_queue,
}
use websockets.Server.Lifecycle.{pick}
use websockets.Service.{set}
use websockets.Service.Links.{set_elim}
use websockets.Client.World.{
  World, Event, opens, submits, closes_current, shuts_down, delivers, acts, step, after, posts_of,
  make_all, is_live, is_open_in, Enabled,
}
use websockets.Client.World.Posts.{is_close, is_connect, num_waiting, num_waiting-append, Less-pick}
use websockets.Client.World.Linked.{Covered, Linked, Keeps}
use websockets.Client.World.Deliveries.{
  Linked-posted, acts-Linked, delivered-Linked, hit_same, hit_other,
}

-- Effects that make no session and begin none.
abbrev Plain : List Effect → Type 0
Plain effects =
    ((sessions : ℕ → Strand) → make_all sessions effects ≡ sessions)
    × ((k : ℕ) → num_waiting is_connect k (posts_of effects) ≡ 0)

send_message-Plain :
    (is_open : ℕ → Bool) (c : Client) (m : OutgoingMessage) → Plain (send_message is_open c m)
unfolding send_message
send_message-Plain is_open c m = sent c.session
  where
    sent :
        (o : Option ℕ)
        → Plain (elim o as (λ _. List Effect) [
          | none ↦ log_not_connected ∷ []
          | some id ↦ if is_open id then Effect.send id m ∷ [] else log_not_connected ∷ []
        ])
    sent none = ((λ s. refl), (λ k. refl))
    sent (some id) =
        if_elim Plain (is_open id) (λ _. ((λ s. refl), λ k. omega arith))
          (λ _. ((λ s. refl), (λ k. refl)))

close_of-Plain : (o : Option ℕ) → Plain (close_of o)
close_of-Plain none = ((λ s. refl), (λ k. refl))
close_of-Plain (some id) = ((λ s. refl), (λ k. omega arith))

-- The session that is let go of is told to close, before `rest`.
close_of-rest :
    (o : Option ℕ) (rest : List Effect)
    → ((sessions : ℕ → Strand) → make_all sessions (close_of o ++ rest) ≡ make_all sessions rest)
      × ((k : ℕ)
          → num_waiting is_connect k (posts_of (close_of o ++ rest))
            ≡ num_waiting is_connect k (posts_of rest))
      × ((k : ℕ)
          → is_current o k ≡ true
          → 1 ≤ num_waiting is_close k (posts_of (close_of o ++ rest)))
close_of-rest none rest = ((λ s. refl), (λ k. refl), (λ k current. cc))
close_of-rest (some id) rest = (
  (λ s. refl),
  (λ k. omega arith),
  (λ k current. omega (arith, hit_same id k ((==_iff id k).0 current))),
)

module _ (w : World) (v : Linked w) where
  Plain-Linked : (effects : List Effect) → Plain effects → Linked (after w (w.client, effects))
  Plain-Linked effects (no_session, no_connect) =
      subst
        (λ s.
          Linked (record { client = w.client; sessions = s; inbox = w.inbox ++ posts_of effects }))
        (sym (no_session w.sessions)) (Linked-posted w v (posts_of effects) no_connect)

  -- The cover of a session when the client lets go of the one that it holds.
  Covered-on :
      (d : Client) (rest : List Effect) (k : ℕ)
      → k < w.client.next_session
      → is_live (w.sessions k) ≡ true
      → Covered d (w.sessions k) (w.inbox ++ posts_of (close_of w.client.session ++ rest)) k
  Covered-on d rest k made live =
      let posts = posts_of (close_of w.client.session ++ rest) in
      let both_ = num_waiting-append is_close k w.inbox posts in
      elim (v.covered k made live) [
        | inl asked ↦ inl asked
        | inr (inl current) ↦
            inr (inr (omega (arith, both_, (close_of-rest w.client.session rest).2 k current)))
        | inr (inr waits) ↦ inr (inr (omega (arith, both_, waits)))
      ]

  num_connects_on :
      (rest : List Effect) (k : ℕ)
      → num_waiting is_connect k (w.inbox ++ posts_of (close_of w.client.session ++ rest))
        ≡ num_waiting is_connect k w.inbox + num_waiting is_connect k (posts_of rest)
  num_connects_on rest k =
      let posts = posts_of (close_of w.client.session ++ rest) in
      omega (
        arith,
        num_waiting-append is_connect k w.inbox posts,
        (close_of-rest w.client.session rest).1 k,
      )

  -- `Shutdown`
  dropped-Linked : Linked (
      after w (
        record w.client { shutdown = true; session = none },
        close_of w.client.session ++ stop_work_queue ∷ [],
      ))
  dropped-Linked =
      let d = record w.client { shutdown = true; session = none } in
      let rest = stop_work_queue ∷ [] in
      let posts = w.inbox ++ posts_of (close_of w.client.session ++ rest) in
      subst (λ s. Linked (record { client = d; sessions = s; inbox = posts }))
        (sym ((close_of-rest w.client.session rest).0 w.sessions))
        (record {
          strands = v.strands;
          covered = Covered-on d rest;
          dialled = λ k made. omega (arith, num_connects_on rest k, v.dialled k made);
          unmade = λ k far. omega (arith, num_connects_on rest k, v.unmade k far);
          ended = λ flag. refl;
        })

  -- `DoConnect`
  made-Linked :
      (host : Text) (port : ℕ) (resource : Text)
      → w.client.shutdown ≡ false
      → Linked (after w (do_connect w.client host port resource))
  unfolding do_connect new_strand
  made-Linked host port resource going =
      let id = w.client.next_session in
      let d = record w.client { session = some id; next_session = id + 1 } in
      let rest = connect_session id host port resource w.client.handshake_headers ∷ [] in
      let posts = w.inbox ++ posts_of (close_of w.client.session ++ rest) in
      let new = new_strand (uses_ssl w.client.settings) in
      subst (λ s. Linked (record { client = d; sessions = s; inbox = posts }))
        (sym ((close_of-rest w.client.session rest).0 (set w.sessions id new)))
        (record {
          strands = λ k.
              set_elim (λ i t. Inv t) w.sessions id new k
                (λ _. Reach-Inv (uses_ssl w.client.settings) (Strand.here refl)) (λ _. v.strands k);
          covered = λ k made.
              set_elim (λ i t. is_live t ≡ true → Covered d t posts i) w.sessions id new k
                (λ same live. inr (inl ((==_iff id k).1 (sym same))))
                (λ other. Covered-on d rest k (omega (arith, made, other)));
          dialled = λ k made.
              set_elim (λ i t. num_waiting is_connect i posts ≡ bit t.unstarted) w.sessions id new k
                (λ same. omega (
                  arith,
                  num_connects_on rest k,
                  v.unmade k (omega (arith, same)),
                  hit_same id k (sym same),
                ))
                (λ other. omega (
                  arith,
                  num_connects_on rest k,
                  v.dialled k (omega (arith, made, other)),
                  hit_other id k other,
                ));
          unmade = λ k far. omega (
            arith,
            num_connects_on rest k,
            v.unmade k (omega (arith, far)),
            hit_other id k (λ same. omega (arith, far, same)),
          );
          ended = λ flag. cc;
        })

  pub step-Linked : (e : Event) → Enabled w e → Keeps (step w e)
  unfolding step async_connect do_connect shut_down close
  step-Linked (opens host port resource) enabled =
      if_elim (λ (r : Client × List Effect). Linked (after w r)) w.client.shutdown
        (λ _. Plain-Linked [] ((λ s. refl), (λ k. refl)))
        (λ going. made-Linked host port resource going)
  step-Linked (submits m) enabled =
      Plain-Linked (send_message (is_open_in w) w.client m)
        (send_message-Plain (is_open_in w) w.client m)
  step-Linked closes_current enabled =
      Plain-Linked (close_of w.client.session) (close_of-Plain w.client.session)
  step-Linked shuts_down enabled =
      if_elim (λ (r : Client × List Effect). Linked (after w r)) w.client.shutdown
        (λ _. Plain-Linked [] ((λ s. refl), (λ k. refl))) (λ _. dropped-Linked)
  step-Linked (delivers n) enabled =
      delivered-Linked w v (pick n w.inbox) (λ is j. Less-pick is j n w.inbox)
  step-Linked (acts k e) enabled = acts-Linked w v k e enabled
