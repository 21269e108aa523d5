-- ===== src/Fibers/Mutex/Tests.antt =====
-- tasks/fibers/mutex/exe/fibers/sync/mutex.hpp at work, and its theorems there.
use concurrency_course_by_li.Base.{
  ℕ, ◌+◌, ◌≤◌, ◌≡◌, refl, ◌≢◌, Bool, true, List, [], ◌∷◌, ◌++◌, arith,
}
use concurrency_course_by_li.Threads.{tally, run}
use concurrency_course_by_li.Fibers.Mutex.{
  outside, inside, crashed, try_lock, enqueue, try_unlock, take_fiber, act, schedule, step, init,
}
use concurrency_course_by_li.Fibers.Mutex.Invariant.{owns, schedules, occurs, parks}
use concurrency_course_by_li.Fibers.Mutex.Parking.{fiber_mutex_exclusion, fiber_mutex_parked}

abbrev go : ℕ → ℕ × Bool
go i = (i, true)

-- Fiber 0 is inside, 1 and 2 are parked.
abbrev contended : List (ℕ × Bool)
contended = go 0 ∷ go 0 ∷ go 1 ∷ go 1 ∷ go 1 ∷ go 2 ∷ go 2 ∷ go 2 ∷ []

contended_queue : let w = run step 3 contended init in (w.mem.park_q ≡ 1 ∷ 2 ∷ []) × (w.mem.st ≡ 2)
unfolding run step act schedule try_lock enqueue try_unlock take_fiber
contended_queue = (refl, refl)

-- Fiber 0 unlocks, and fiber 1 goes in.
handed_over :
    let w = run step 3 (contended ++ go 0 ∷ go 0 ∷ go 0 ∷ []) init in
    (w.pc 0 ≡ outside) × (w.pc 1 ≡ inside) × (w.mem.park_q ≡ 2 ∷ [])
unfolding run step act schedule try_lock enqueue try_unlock take_fiber
handed_over = (refl, refl, refl)

fiber_mutex_exclusion_example : ◌≡◌ {A = ℕ} 0 0
unfolding run step act schedule try_lock enqueue try_unlock take_fiber
fiber_mutex_exclusion_example =
    fiber_mutex_exclusion 3 contended 0 0 (omega arith) (omega arith) refl refl

fiber_mutex_parked_example :
    let w = run step 3 contended init in
    (w.pc 1 ≢ crashed)
    × (occurs 1 w.mem.park_q + tally (schedules 1) 3 w.pc ≡ parks (w.pc 1))
    × (parks (w.pc 1) ≤ tally owns 3 w.pc)
fiber_mutex_parked_example = fiber_mutex_parked 3 contended 1 (omega arith)
