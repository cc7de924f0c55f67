-- ===== src/Client/World/Tests.antt =====
-- A client that connects twice and is shut down.
use websockets.Prelude.{◌≤◌, ◌≡◌, refl, true, false, Option, none, some, [], arith, ◌⊎◌}
use websockets.Text.{codes}
use websockets.Client.Session.Strand.{new_strand}
use websockets.Client.Impl.{default_settings, new_client, do_connect}
use websockets.Client.World.{World, opens, shuts_down, step, Reach, here, next}
use websockets.Client.World.Posts.{is_close, num_waiting}
use websockets.Client.World.Linked.{Covered}
use websockets.Client.World.Runs.{one_session_kept, shut_down_sessions_close}

abbrev new_world : World
new_world = record {
  client = new_client default_settings;
  sessions = λ k. new_strand false;
  inbox = [];
}

abbrev or_new : Option World → World
or_new none = new_world
or_new (some w) = w

abbrev opened : World
opened = or_new (step new_world (opens (codes "localhost") 80 (codes "/")))

abbrev reopened : World
reopened = or_new (step opened (opens (codes "localhost") 81 (codes "/")))

abbrev ended : World
ended = or_new (step reopened shuts_down)

reopened-Reach : Reach reopened
unfolding step
reopened-Reach =
    next (opens (codes "localhost") 81 (codes "/"))
      (next (opens (codes "localhost") 80 (codes "/"))
        (here (record {
          settings = default_settings;
          client_is_new = refl;
          sessions_are_new = refl;
          nothing_posted = refl;
        }))
        tt refl)
      tt refl

ended-Reach : Reach ended
unfolding step
ended-Reach = next shuts_down reopened-Reach tt refl

-- The first session was replaced before it began.
one_session_kept_example : Covered reopened.client (reopened.sessions 0) reopened.inbox 0
unfolding step new_client do_connect new_strand
one_session_kept_example = one_session_kept 0 reopened-Reach (omega arith) refl

shut_down_sessions_close_example :
    ((ended.sessions 1).session.close_requested ≡ true) ⊎ (1 ≤ num_waiting is_close 1 ended.inbox)
unfolding step new_client do_connect new_strand
shut_down_sessions_close_example = shut_down_sessions_close 1 ended-Reach refl (omega arith) refl
