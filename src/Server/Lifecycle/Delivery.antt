-- ===== src/Server/Lifecycle/Delivery.antt =====
-- How the calls that are chosen under the lock are made: a thread that has left the lock posts its
-- calls to the work queue one after another, or, for `NotifyClosedSync`, makes them itself. Other
-- threads may come between, so that the calls can be made in another order than they were chosen.
-- `Shutdown` ends with `Stop` of the work queue, which discards the calls that wait in it, and after
-- which `Post` does nothing.
pub mod Flow
pub mod Once
mod Tests
use websockets.Prelude.{
  ℕ, ◌≡◌, Bool, true, false, Option, none, some, List, [], ◌∷◌, ◌++◌, if◌then◌else◌,
}
use websockets.Server.{ServerSettings, Call}
use websockets.Server.Clients.{register_ws_client, on_ws_closed, notify_closed_sync}
use websockets.Server.Lifecycle.{
  System, Event, registers, closes, notifies, calls_of, pick, step, new_system,
}

pub record Delivery : Type 0 where
  pub system : System
  -- what the threads that have left the lock have still to post, and to call
  pub unposted : List (List Call)
  pub uncalled : List (List Call)
  -- the work queue, and the calls that were made
  pub queue : List Call
  pub queue_stopped : Bool
  pub made : List Call

-- What happens next: a section under the lock; the next post, or call, of one of the threads; the
-- worker takes the front of the queue; or `Shutdown` stops the queue.
pub data Turn : Type 0 where
  enters : Event → Turn
  posts makes : ℕ → Turn
  works stops_queue : Turn

-- What the thread has to post, and to call, when it leaves the lock.
pub to_post : System → Event → List Call
to_post sys (registers session target is_ssl) =
    calls_of (register_ws_client sys.server session target is_ssl).2
to_post sys (closes id) = calls_of (on_ws_closed sys.server id).1
to_post sys _ = []

pub to_call : System → Event → List Call
to_call sys (notifies n) = elim (pick n sys.pending) [
  | none ↦ []
  | some ((id, uri), rest) ↦ calls_of (notify_closed_sync sys.server id uri)
]
to_call sys _ = []

-- A thread posts its next call, or is through.
abbrev pub post_next : Delivery → Option (List Call × List (List Call)) → Delivery
post_next d none = d
post_next d (some ([], rest)) = record d { unposted = rest }
post_next d (some (call ∷ calls, rest)) = record d {
  unposted = calls ∷ rest;
  queue = if d.queue_stopped then d.queue else d.queue ++ call ∷ [];
}

abbrev pub call_next : Delivery → Option (List Call × List (List Call)) → Delivery
call_next d none = d
call_next d (some ([], rest)) = record d { uncalled = rest }
call_next d (some (call ∷ calls, rest)) = record d {
  uncalled = calls ∷ rest;
  made = d.made ++ call ∷ [];
}

abbrev pub work : Delivery → List Call → Delivery
work d [] = d
work d (call ∷ calls) = record d { queue = calls; made = d.made ++ call ∷ [] }

pub turn : Delivery → Turn → Delivery
unfolding to_post to_call
turn d (enters e) = record d {
  system = step d.system e;
  unposted = to_post d.system e ∷ d.unposted;
  uncalled = to_call d.system e ∷ d.uncalled;
}
turn d (posts n) = post_next d (pick n d.unposted)
turn d (makes n) = call_next d (pick n d.uncalled)
turn d works = work d d.queue
turn d stops_queue =
    if d.system.server.shutdown then record d { queue_stopped = true; queue = [] } else d

pub turns : Delivery → List Turn → Delivery
unfolding turn
turns d [] = d
turns d (t ∷ ts) = turns (turn d t) ts

abbrev pub new_delivery : ServerSettings → Delivery
new_delivery settings = record {
  system = new_system settings;
  unposted = [];
  uncalled = [];
  queue = [];
  queue_stopped = false;
  made = [];
}

-- The sections among the turns.
abbrev pub sections : List Turn → List Event
sections [] = []
sections (enters e ∷ ts) = e ∷ sections ts
sections (_ ∷ ts) = sections ts

-- The queue runs and is empty, no thread has a call left to post or to make, and no client awaits
-- its notification.
pub record Settled (d : Delivery) : Type 0 where
  pub goes : d.queue_stopped ≡ false
  pub queue_empty : d.queue ≡ []
  pub all_posted : d.unposted ≡ []
  pub all_called : d.uncalled ≡ []
  pub all_told : d.system.pending ≡ []
