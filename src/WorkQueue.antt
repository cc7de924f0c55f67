-- ===== src/WorkQueue.antt =====
-- `CWorkQueue` of src/CWorkQueue.h: functions posted from any thread, run in order on one worker
-- thread. Each section under the mutex, and each function that the worker runs, is one step.
pub mod Order
use websockets.Prelude.{
  ℕ, ◌≡◌, Bool, true, false, not, ◌||◌, Option, none, some, List, [], ◌∷◌, ◌++◌, if◌then◌else◌,
  is_empty,
}

-- Where the worker thread is.
pub data Worker : Type 0 where
  -- the thread has not been started
  absent : Worker
  -- waiting for work
  waiting : Worker
  -- running a function
  running : ℕ → Worker
  -- it has returned from `Run`
  finished : Worker

-- A function is named by a number.
pub record WorkQueue : Type 0 where
  pub queue : List ℕ
  pub stopped : Bool
  pub worker : Worker

abbrev pub new_work_queue : WorkQueue
new_work_queue = record { queue = []; stopped = false; worker = absent }

-- `Start`
unfoldable pub start : WorkQueue → WorkQueue
start q = record q { worker = waiting }

-- `Post`
pub post : WorkQueue → ℕ → WorkQueue
post q fn = if q.stopped then q else record q { queue = q.queue ++ fn ∷ [] }

-- One wake-up of the waiting worker in `Run`: it returns if the queue is stopped, takes the front
-- function if there is one, and goes on waiting otherwise.
pub wake : WorkQueue → WorkQueue
wake q =
    if q.stopped
    then record q { worker = finished }
    else elim q.queue [ [] ↦ q | fn ∷ rest ↦ record q { queue = rest; worker = running fn } ]

-- The function that the worker runs returns.
abbrev returned : Worker → Worker
returned (running fn) = waiting
returned w = w

pub finish : WorkQueue → WorkQueue
finish q = record q { worker = returned q.worker }

-- `Stop` up to the join.
unfoldable pub stop : WorkQueue → WorkQueue
stop q = if q.stopped then q else record q { stopped = true; queue = [] }

-- The join at the end of `Stop` returns: the worker has ended, or was never started.
abbrev pub joined : Worker → Bool
joined absent = true
joined finished = true
joined _ = false
