-- ===== src/Server/Lifecycle/Delivery/Once.antt =====
-- How often the callbacks of one client are called.
use websockets.Prelude.{
  ℕ, ◌+◌, ◌^◌, ◌≤◌, ◌<◌, ◌≡◌, refl, ap, sym, subst, ◌∙◌, List, [], ◌∷◌, length, All, arith, Option,
  none, some, if_elim,
}
use websockets.Server.{ServerSettings, Call}
use websockets.Server.Lifecycle.{pick, run, new_system}
use websockets.Server.Lifecycle.Tally.{
  num_added, num_closed, num_connected, num_due, num_added-append, num_closed-append,
}
use websockets.Server.Lifecycle.Once.{SetsCallbacks, run-closed_once}
use websockets.Server.Lifecycle.Delivery.{
  Delivery, Turn, enters, posts, makes, works, stops_queue, post_next, call_next, work, turn, turns,
  new_delivery, sections, Settled,
}
use websockets.Server.Lifecycle.Delivery.Flow.{Flow, turns-Flow, Settled-made}

post_next-system :
    (d : Delivery) (o : Option (List Call × List (List Call))) → (post_next d o).system ≡ d.system
post_next-system d none = refl
post_next-system d (some ([], rest)) = refl
post_next-system d (some (call ∷ calls, rest)) = refl

call_next-system :
    (d : Delivery) (o : Option (List Call × List (List Call))) → (call_next d o).system ≡ d.system
call_next-system d none = refl
call_next-system d (some ([], rest)) = refl
call_next-system d (some (call ∷ calls, rest)) = refl

work-system : (d : Delivery) (queue : List Call) → (work d queue).system ≡ d.system
work-system d [] = refl
work-system d (call ∷ calls) = refl

-- The turns between the sections leave the server alone.
turns-system : (d : Delivery) (ts : List Turn) → (turns d ts).system ≡ run d.system (sections ts)
unfolding turns turn run
turns-system d [] = refl
turns-system d (enters e ∷ ts) = turns-system (turn d (enters e)) ts
turns-system d (posts n ∷ ts) =
    turns-system (turn d (posts n)) ts
    ∙ ap (λ s. run s (sections ts)) (post_next-system d (pick n d.unposted))
turns-system d (makes n ∷ ts) =
    turns-system (turn d (makes n)) ts
    ∙ ap (λ s. run s (sections ts)) (call_next-system d (pick n d.uncalled))
turns-system d (works ∷ ts) =
    turns-system (turn d works) ts ∙ ap (λ s. run s (sections ts)) (work-system d d.queue)
turns-system d (stops_queue ∷ ts) =
    turns-system (turn d stops_queue) ts
    ∙ if_elim (λ (e : Delivery). run e.system (sections ts) ≡ run d.system (sections ts))
        d.system.server.shutdown (λ _. refl) (λ _. refl)

module _ (settings : ServerSettings) (ts : List Turn) (id : ℕ)
    (sets : All SetsCallbacks (sections ts)) (room : length (sections ts) + 1 < 2 ^ 32) where
  abbrev after : Delivery
  after = turns (new_delivery settings) ts

  -- What the sections chose, by `run-closed_once`.
  chosen_once :
      (num_added id after.system.chosen ≤ 1)
      × (num_closed id after.system.chosen
            + (num_connected id after.system.server.clients + num_due id after.system.pending)
          ≡ num_added id after.system.chosen)
  chosen_once =
      subst
        (λ sys.
          (num_added id sys.chosen ≤ 1)
          × (num_closed id sys.chosen
                + (num_connected id sys.server.clients + num_due id sys.pending)
              ≡ num_added id sys.chosen))
        (sym (turns-system (new_delivery settings) ts))
        (run-closed_once settings (sections ts) id sets room)

  added-Flow : Flow (num_added id) refl (num_added-append id) after
  unfolding new_system
  added-Flow =
      turns-Flow (num_added id) refl (num_added-append id) (new_delivery settings) ts
        (record { most = omega arith; all = λ _. omega arith })

  closed-Flow : Flow (num_closed id) refl (num_closed-append id) after
  unfolding new_system
  closed-Flow =
      turns-Flow (num_closed id) refl (num_closed-append id) (new_delivery settings) ts
        (record { most = omega arith; all = λ _. omega arith })

-- In every run of a new server whose starts set both callbacks, and which has fewer sections under
-- the lock than ids, however the threads post and make their calls after the lock and whenever the
-- work queue is stopped: a client's added callback is called at most once, and so is its closed
-- callback.
pub made_once :
    (settings : ServerSettings) (ts : List Turn) (id : ℕ)
    → All SetsCallbacks (sections ts)
    → length (sections ts) + 1 < 2 ^ 32
    → let d = turns (new_delivery settings) ts in
      (num_added id d.made ≤ 1) × (num_closed id d.made ≤ 1)
made_once settings ts id sets room =
    let (once, balance) = chosen_once settings ts id sets room in
    let added = (added-Flow settings ts id sets room).most in
    let closed = (closed-Flow settings ts id sets room).most in
    (omega (arith, once, added), omega (arith, once, balance, closed))

-- In such a run, when the work queue has not been stopped and is empty, no thread has a call left
-- to post or to make and no client awaits its notification: a client's added callback was called
-- exactly as often as its closed callback, and once more if the client is connected.
pub made_balanced :
    (settings : ServerSettings) (ts : List Turn) (id : ℕ)
    → All SetsCallbacks (sections ts)
    → length (sections ts) + 1 < 2 ^ 32
    → Settled (turns (new_delivery settings) ts)
    → let d = turns (new_delivery settings) ts in
      num_added id d.made ≡ num_closed id d.made + num_connected id d.system.server.clients
made_balanced settings ts id sets room s =
    let (once, balance) = chosen_once settings ts id sets room in
    let d = turns (new_delivery settings) ts in
    let added =
      Settled-made (num_added id) refl (num_added-append id) d (added-Flow settings ts id sets room)
        s in
    let closed =
      Settled-made (num_closed id) refl (num_closed-append id) d
        (closed-Flow settings ts id sets room) s in
    omega (arith, balance, added, closed, ap (num_due id) s.all_told)
