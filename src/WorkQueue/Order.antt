-- ===== src/WorkQueue/Order.antt =====
-- The functions run in the order in which they were posted, and none runs after `Stop`.
mod Tests
use websockets.Prelude.{
  ℕ, ◌≡◌, refl, sym, ap, ◌∙◌, true, false, List, [], ◌∷◌, ◌++◌, if◌then◌else◌, arith, append_assoc,
  append-nil, Bool-cases, inl, inr,
}
use websockets.WorkQueue.{
  Worker, absent, waiting, running, finished, WorkQueue, new_work_queue, start, post, wake, finish,
  stop,
}

-- The queue with what was posted while it was not stopped, and what was started, oldest first.
pub record History : Type 0 where
  pub work : WorkQueue
  pub posted : List ℕ
  pub started : List ℕ

pub data Event : Type 0 where
  starts stops wakes finishes : Event
  posts : ℕ → Event

-- A worker that waits may wake up at any time; a function may return while it runs; the thread is
-- started once.
abbrev pub Enabled : History → Event → Type 0
Enabled h starts = h.work.worker ≡ absent
Enabled h wakes = h.work.worker ≡ waiting
Enabled h finishes = (fn : ℕ) × (h.work.worker ≡ running fn)
Enabled h _ = Unit

abbrev now_running : Worker → List ℕ
now_running (running fn) = fn ∷ []
now_running _ = []

pub step : History → Event → History
unfolding start post wake finish stop
step h starts = record h { work = start h.work }
step h (posts fn) = record h {
  work = post h.work fn;
  posted = if h.work.stopped then h.posted else h.posted ++ fn ∷ [];
}
step h wakes = record h {
  work = wake h.work;
  started = h.started ++ now_running (wake h.work).worker;
}
step h finishes = record h { work = finish h.work }
step h stops = record h { work = stop h.work }

pub data Reach : History → Type 0 where
  here : (h : History) → h ≡ record { work = new_work_queue; posted = []; started = [] } → Reach h
  next : {h : History} (e : Event) → Reach h → Enabled h e → Reach (step h e)

record Inv (h : History) : Type 0 where
  order : h.work.stopped ≡ false → h.posted ≡ h.started ++ h.work.queue
  cleared : h.work.stopped ≡ true → h.work.queue ≡ []
  ended : h.work.worker ≡ finished → h.work.stopped ≡ true

step-Inv : (h : History) (e : Event) → Inv h → Enabled h e → Inv (step h e)
unfolding step
step-Inv h starts v e = ground arith
step-Inv h (posts fn) v e = grind (arith, append_assoc)
step-Inv h wakes v e = grind (arith, append_assoc, append-nil)
step-Inv h finishes v e = ground arith
step-Inv h stops v e = ground arith

Reach-Inv : {h : History} → Reach h → Inv h
Reach-Inv (here h e) = ground arith
Reach-Inv (next {h} e r enabled) = step-Inv h e (Reach-Inv r) enabled

-- A stopped queue stays stopped, and starts and takes nothing more.
step_stopped :
    (h : History) (e : Event)
    → h.work.stopped ≡ true
    → ((step h e).work.stopped ≡ true)
      × ((step h e).started ≡ h.started)
      × ((step h e).posted ≡ h.posted)
unfolding step
step_stopped h starts s = ground arith
step_stopped h (posts fn) s = ground arith
step_stopped h wakes s = grind (arith, append-nil)
step_stopped h finishes s = ground arith
step_stopped h stops s = ground arith

-- A step on a queue that is not stopped keeps the order; `stops` drops what was queued.
step_open :
    (h : History) (e : Event)
    → Inv h
    → h.work.stopped ≡ false
    → Enabled h e
    → (rest : List ℕ) × ((step h e).posted ≡ (step h e).started ++ rest)
unfolding step
step_open h starts v s d = (h.work.queue, ground arith)
step_open h (posts fn) v s d = (h.work.queue ++ fn ∷ [], grind (arith, append_assoc))
step_open h wakes v s d = ((wake h.work).queue, grind (arith, append_assoc, append-nil))
step_open h finishes v s d = (h.work.queue, ground arith)
step_open h stops v s d = (h.work.queue, ground arith)

-- What was started is the beginning of what was posted, in the same order.
pub started_in_order : {h : History} → Reach h → (rest : List ℕ) × (h.posted ≡ h.started ++ rest)
started_in_order (here _ e) = ([], ground arith)
started_in_order (next {h} e r enabled) = elim (Bool-cases h.work.stopped) [
  | inl s ↦
      let (_, same_started, same_posted) = step_stopped h e s in
      let (rest, p) = started_in_order r in
      (rest, same_posted ∙ (p ∙ ap (λ l. l ++ rest) (sym same_started)))
  | inr s ↦ step_open h e (Reach-Inv r) s enabled
]

-- Until the queue is stopped, all that was posted and not started waits in it, in order.
none_lost : {h : History} → Reach h → h.work.stopped ≡ false → h.posted ≡ h.started ++ h.work.queue
none_lost r s = (Reach-Inv r).order s

-- What may follow on a state.
pub data Later (h : History) : History → Type 0 where
  now : Later h h
  then_ : {k : History} (e : Event) → Later h k → Enabled k e → Later h (step k e)

-- Once `Stop` has set its flag, no function starts any more and none is taken, whatever the
-- threads do.
stopped_stays :
    {h k : History}
    → Later h k
    → h.work.stopped ≡ true
    → (k.work.stopped ≡ true) × (k.started ≡ h.started) × (k.posted ≡ h.posted)
stopped_stays now s = (s, refl, refl)
stopped_stays (then_ {k} e l enabled) s =
    let (s', a, b) = stopped_stays l s in
    let (s'', a', b') = step_stopped k e s' in (s'', a' ∙ a, b' ∙ b)
