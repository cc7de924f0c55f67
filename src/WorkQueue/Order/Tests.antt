-- ===== src/WorkQueue/Order/Tests.antt =====
-- Runs of a work queue.
use websockets.Prelude.{ℕ, ◌≡◌, refl, List, [], ◌++◌}
use websockets.WorkQueue.{new_work_queue}
use websockets.WorkQueue.Order.{
  History, starts, stops, wakes, finishes, posts, step, Reach, here, next, Later, now, then_,
  started_in_order,
}

abbrev first : History
first = record { work = new_work_queue; posted = []; started = [] }

-- Two functions posted, and one of them taken.
abbrev busy : History
busy = step (step (step (step first starts) (posts 7)) (posts 8)) wakes

busy-Reach : Reach busy
unfolding step
busy-Reach =
    next wakes (next (posts 8) (next (posts 7) (next starts (here first refl) refl) tt) tt) refl

-- `Stop` while the first runs, and then its return.
abbrev stopped_busy : History
stopped_busy = step busy stops

abbrev ended : History
ended = step (step stopped_busy (posts 9)) finishes

ended-Later : Later stopped_busy ended
unfolding step
ended-Later = then_ finishes (then_ (posts 9) now tt) (7, refl)

started_in_order_example : (rest : List ℕ) × (busy.posted ≡ busy.started ++ rest)
started_in_order_example = started_in_order busy-Reach
