-- ===== src/IoPool/Stops.antt =====
-- How the threads of a pool end.
use websockets.Prelude.{
  ℕ, zero, suc, ◌+◌, ◌≤◌, ◌≡◌, ◌≢◌, refl, ap, sym, subst, ◌∙◌, Bool, true, false, Option, none,
  some, List, [], ◌∷◌, ◌++◌, append_assoc, append-nil, if_elim, length, length-append, get_elem?,
  arith, ◌==◌,
}
use websockets.IoPool.{
  ℤ, pos, negsuc, Thread, joinable, joined, detached, Progress, resetting, stopping, releasing,
  returned, IoPool, thread_count, spawn, new_pool, release, stop, destroy, Event, calls, proceeds,
  run, step,
}

-- How far the first call has gone on.
abbrev pub num_proceeds : List Event → ℕ
num_proceeds [] = 0
num_proceeds (calls caller ∷ es) = num_proceeds es
num_proceeds (proceeds ∷ es) = 1 + num_proceeds es

-- The number of threads asked for, or one.
abbrev pub Asked : ℤ → ℕ → Type 0
Asked (pos (suc n)) k = k ≡ suc n
Asked _ k = k ≡ 1

-- The thread at place `i` has been detached if it made the call, and otherwise joined.
abbrev pub Fate : Option ℕ → ℕ → Thread → Type 0
Fate caller i thread = (caller ≡ some i → thread ≡ detached) × (caller ≢ some i → thread ≡ joined)

abbrev release_from : Option ℕ → ℕ → List Thread → List Thread
release_from caller i [] = []
release_from caller i (thread ∷ threads) =
    release caller i thread ∷ release_from caller (i + 1) threads

abbrev at : Bool → Bool → List Thread → List Thread → Progress → IoPool
at guarded context_stopped passed threads progress = record {
  guarded = guarded;
  context_stopped = context_stopped;
  passed = passed;
  threads = threads;
  stopped = true;
  progress = progress;
}

same_place : (i j : ℕ) → (i == j) ≡ true → j ≡ i
same_place i j e = ground arith

run-returned :
    (passed : List Thread) (es : List Event)
    → run (at false true passed [] returned) es ≡ at false true passed [] returned
unfolding run step stop
run-returned passed [] = refl
run-returned passed (calls c ∷ es) = run-returned passed es
run-returned passed (proceeds ∷ es) = run-returned passed es

module _ (caller : Option ℕ) where
  run-releasing :
      (passed threads : List Thread) (es : List Event)
      → length threads + 1 ≤ num_proceeds es
      → run (at false true passed threads (releasing caller)) es
        ≡ at false true (passed ++ release_from caller (length passed) threads) [] returned
  unfolding run step stop
  run-releasing passed threads [] enough = absurd (omega arith)
  run-releasing passed threads (calls c ∷ es) enough = run-releasing passed threads es enough
  run-releasing passed [] (proceeds ∷ es) enough =
      run-returned passed es ∙ ap (λ l. at false true l [] returned) (sym (append-nil passed))
  run-releasing passed (t ∷ threads) (proceeds ∷ es) enough =
      let i = length passed in
      run-releasing (passed ++ release caller i t ∷ []) threads es (omega arith)
      ∙ ap (λ l. at false true l [] returned)
          (ap (λ n. (passed ++ release caller i t ∷ []) ++ release_from caller n threads)
              (length-append passed (release caller i t ∷ []))
            ∙ append_assoc passed (release caller i t ∷ []) (release_from caller (i + 1) threads))

  run-stopping :
      (threads : List Thread) (es : List Event)
      → length threads + 2 ≤ num_proceeds es
      → run (at false false [] threads (stopping caller)) es
        ≡ at false true (release_from caller 0 threads) [] returned
  unfolding run step stop
  run-stopping threads [] enough = absurd (omega arith)
  run-stopping threads (calls c ∷ es) enough = run-stopping threads es enough
  run-stopping threads (proceeds ∷ es) enough = run-releasing [] threads es (omega arith)

  run-resetting :
      (threads : List Thread) (es : List Event)
      → length threads + 3 ≤ num_proceeds es
      → run (at true false [] threads (resetting caller)) es
        ≡ at false true (release_from caller 0 threads) [] returned
  unfolding run step stop
  run-resetting threads [] enough = absurd (omega arith)
  run-resetting threads (calls c ∷ es) enough = run-resetting threads es enough
  run-resetting threads (proceeds ∷ es) enough = run-stopping threads es (omega arith)

  release-Fate : (i : ℕ) → Fate caller i (release caller i joinable)
  release-Fate i = go caller
    where
      go : (c : Option ℕ) → Fate c i (release c i joinable)
      go none = ((λ e. cc), λ n. refl)
      go (some j) =
          if_elim (Fate (some j) i) (i == j)
            (λ e. ((λ _. refl), λ n. absurd (n (ap some (same_place i j e)))))
            (λ e. ((λ h. ground arith), λ _. refl))

  release_from-Fate :
      (n i j : ℕ) (thread : Thread)
      → get_elem? (release_from caller j (spawn n)) i ≡ some thread
      → Fate caller (i + j) thread
  release_from-Fate zero i j thread e = cc
  release_from-Fate (suc n) zero j thread e =
      subst (λ k. Fate caller k thread) j_lem
        (subst (Fate caller j) (release_same e) (release-Fate j))
    where
      j_lem : j ≡ 0 + j
      j_lem = omega arith

      release_same :
          some (release caller j joinable) ≡ some thread → release caller j joinable ≡ thread
      release_same h = cc h
  release_from-Fate (suc n) (suc i) j thread e =
      subst (λ k. Fate caller k thread) (omega arith) (release_from-Fate n i (j + 1) thread e)

  length-release_from : (n i : ℕ) → length (release_from caller i (spawn n)) ≡ n
  length-release_from zero i = refl
  length-release_from (suc n) i = ap suc (length-release_from n (i + 1))

length-spawn : (n : ℕ) → length (spawn n) ≡ n
length-spawn zero = refl
length-spawn (suc n) = ap suc (length-spawn n)

thread_count-Asked : (k : ℤ) → Asked k (thread_count k)
thread_count-Asked (pos zero) = refl
thread_count-Asked (pos (suc n)) = ground arith
thread_count-Asked (negsuc n) = refl

-- When the first call of `Stop` has gone on through its two statements and its loop, whatever calls
-- other threads made meanwhile, the context is stopped, its guard is reset and every thread of the
-- pool has been released: the calling thread, if it is one of the pool, by detaching it, and all
-- others by joining them. They are as many as were asked for, or one. The destructor's call then
-- changes nothing.
pub run-Fate :
    (num_threads : ℤ) (caller last : Option ℕ) (es : List Event)
    → thread_count num_threads + 3 ≤ num_proceeds es
    → let p = run (new_pool num_threads) (calls caller ∷ es) in
      (p.progress ≡ returned)
      × (p.context_stopped ≡ true)
      × (p.guarded ≡ false)
      × (p.threads ≡ [])
      × Asked num_threads (length p.passed)
      × ((i : ℕ) (thread : Thread) → get_elem? p.passed i ≡ some thread → Fate caller i thread)
      × (destroy p last ≡ p)
unfolding run step stop destroy new_pool
run-Fate num_threads caller last es enough =
    let n = thread_count num_threads in
    let ends = run-resetting caller (spawn n) es (omega (arith, length-spawn n)) in
    subst
      (λ p.
        (p.progress ≡ returned)
        × (p.context_stopped ≡ true)
        × (p.guarded ≡ false)
        × (p.threads ≡ [])
        × Asked num_threads (length p.passed)
        × ((i : ℕ) (thread : Thread) → get_elem? p.passed i ≡ some thread → Fate caller i thread)
        × (destroy p last ≡ p))
      (sym ends)
      (
        refl,
        refl,
        refl,
        refl,
        subst (Asked num_threads) (sym (length-release_from caller n 0))
            (thread_count-Asked num_threads),
        (λ i thread e.
            subst (λ k. Fate caller k thread) (omega arith)
              (release_from-Fate caller n i 0 thread e)),
        refl,
      )
