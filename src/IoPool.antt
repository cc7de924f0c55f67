-- ===== src/IoPool.antt =====
-- `CIoPool` (src/CIoPool.cpp): the threads that run an io_context of Boost.Asio, which is a
-- parameter here: only that it is stopped, and that a guard keeps it running, is recorded.
pub mod Stops
mod Tests
use websockets.Prelude.{
  ℕ, zero, suc, ◌+◌, Bool, true, false, Option, none, some, List, [], ◌∷◌, ◌++◌, if◌then◌else◌, ltb,
  ◌==◌, length,
}

-- `int`, as a number of threads may be asked for.
pub data ℤ : Type 0 where
  pos : ℕ → ℤ
  negsuc : ℕ → ℤ

-- A std::thread: its owner can join it, or has joined or detached it.
pub data Thread : Type 0 where
  joinable joined detached : Thread

-- Where the first call of `Stop` is, with the thread that makes it: `none` is a thread outside the
-- pool, `some i` the thread at place `i` of the pool.
pub data Progress : Type 0 where
  not_called : Progress
  -- before `mWorkGuard.reset()`, before `mIoc.stop()`, and in the loop over the threads
  resetting stopping releasing : Option ℕ → Progress
  returned : Progress

-- The loop of `Stop` divides the threads into those that it has passed and the others.
pub record IoPool : Type 0 where
  pub guarded : Bool
  pub context_stopped : Bool
  pub passed : List Thread
  pub threads : List Thread
  pub stopped : Bool
  pub progress : Progress

-- `std::max(a, b)`
abbrev pub max : ℕ → ℕ → ℕ
max a b = if ltb a b then b else a

-- `std::max(1, numThreads)`
abbrev pub thread_count : ℤ → ℕ
thread_count (pos n) = max 1 n
thread_count (negsuc n) = 1

abbrev pub spawn : ℕ → List Thread
spawn zero = []
spawn (suc n) = joinable ∷ spawn n

-- The constructor.
pub new_pool : ℤ → IoPool
new_pool num_threads = record {
  guarded = true;
  context_stopped = false;
  passed = [];
  threads = spawn (thread_count num_threads);
  stopped = false;
  progress = not_called;
}

-- The number of threads of `Default`; `hardware` is what the library says of the machine.
pub default_size : ℕ → ℤ
default_size hardware = pos (max 2 hardware)

-- `get_id() == std::this_thread::get_id()`: the caller may be a thread of the pool.
abbrev pub is_caller : Option ℕ → ℕ → Bool
is_caller none i = false
is_caller (some j) i = i == j

abbrev pub release : Option ℕ → ℕ → Thread → Thread
release caller i joinable = if is_caller caller i then detached else joined
release caller i thread = thread

-- `Stop` up to and with its first statement: the flag is set before anything else is done, so that
-- a call which finds it set returns at once, also while the first call is not through.
pub stop : IoPool → Option ℕ → IoPool
stop p caller = if p.stopped then p else record p { stopped = true; progress = resetting caller }

-- The loop in `Stop` at its next thread.
abbrev pub release_next : IoPool → Option ℕ → List Thread → IoPool
release_next p caller [] = record p { progress = returned }
release_next p caller (thread ∷ threads) = record p {
  passed = p.passed ++ release caller (length p.passed) thread ∷ [];
  threads = threads;
}

-- The next statement of the first call of `Stop`, or the next round of its loop.
abbrev pub proceed : IoPool → Progress → IoPool
proceed p not_called = p
proceed p (resetting caller) = record p { guarded = false; progress = stopping caller }
proceed p (stopping caller) = record p { context_stopped = true; progress = releasing caller }
proceed p (releasing caller) = release_next p caller p.threads
proceed p returned = p

pub data Event : Type 0 where
  -- a call of `Stop`
  calls : Option ℕ → Event
  -- the first call goes on
  proceeds : Event

pub step : IoPool → Event → IoPool
unfolding stop
step p (calls caller) = stop p caller
step p proceeds = proceed p p.progress

pub run : IoPool → List Event → IoPool
unfolding step
run p [] = p
run p (e ∷ es) = run (step p e) es

-- The destructor.
pub destroy : IoPool → Option ℕ → IoPool
unfolding stop
destroy p caller = stop p caller
