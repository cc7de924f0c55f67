-- ===== src/IoPool/Tests.antt =====
-- Pools of no, of negatively many, and of three threads.
use websockets.Prelude.{
  ℕ, ◌≡◌, true, false, refl, none, some, List, [], ◌∷◌, length, get_elem?, arith,
}
use websockets.IoPool.{
  Thread, pos, negsuc, joined, detached, thread_count, new_pool, default_size, returned, destroy,
  Event, calls, proceeds, run,
}
use websockets.IoPool.Stops.{Asked, Fate, run-Fate}

-- Another thread calls while the first call goes on.
abbrev going : List Event
going = proceeds ∷ proceeds ∷ calls none ∷ proceeds ∷ proceeds ∷ proceeds ∷ proceeds ∷ []

-- The second thread of the pool stops it, and is not joined.
stop_by_second :
    (run (new_pool (pos 3)) (calls (some 1) ∷ going)).passed ≡ joined ∷ detached ∷ joined ∷ []
unfolding run new_pool
stop_by_second = refl

no_thread_asked : thread_count (pos 0) ≡ thread_count (negsuc 4)
no_thread_asked = refl

small_machine : thread_count (default_size 1) ≡ 2
unfolding default_size
small_machine = refl

run-Fate_example :
    let p = run (new_pool (pos 3)) (calls (some 1) ∷ going) in
    (p.progress ≡ returned)
    × (p.context_stopped ≡ true)
    × (p.guarded ≡ false)
    × (p.threads ≡ [])
    × Asked (pos 3) (length p.passed)
    × ((i : ℕ) (thread : Thread) → get_elem? p.passed i ≡ some thread → Fate (some 1) i thread)
    × (destroy p none ≡ p)
run-Fate_example = run-Fate (pos 3) (some 1) none going (omega arith)
