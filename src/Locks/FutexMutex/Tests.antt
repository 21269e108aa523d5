-- ===== src/Locks/FutexMutex/Tests.antt =====
-- The futex mutex (tasks/mutex/mutex/mutex.hpp) at work, and its theorems there.
use concurrency_course_by_li.Base.{
  ℕ, ◌≤◌, ◌<◌, ◌≡◌, refl, ◌↔◌, ◌⊎◌, Bool, false, List, [], ◌∷◌, ◌++◌, arith,
}
use concurrency_course_by_li.Threads.{tally, run}
use concurrency_course_by_li.Futex.{last_futex, last_futex_laws}
use concurrency_course_by_li.Locks.FutexMutex.{outside, asleep, inside, waking, step, init, unlock}
use concurrency_course_by_li.Locks.FutexMutex.Invariant.{holds, awake}
use concurrency_course_by_li.Locks.FutexMutex.Safety.{
  futex_mutual_exclusion, futex_no_lost_wakeup, futex_word,
}

-- Thread 0 is inside, thread 1 has gone to sleep.
abbrev sleeper : List (ℕ × Bool)
sleeper = (0, false) ∷ (1, false) ∷ (1, false) ∷ (1, false) ∷ []

sleeper_state :
    let w = run (step last_futex 2) 2 sleeper init in
    (w.pc 0 ≡ inside) × (w.pc 1 ≡ asleep) × (w.mem.m ≡ 2)
unfolding run step last_futex
sleeper_state = (refl, refl, refl)

-- Thread 0 unlocks and wakes thread 1, which goes in.
woken_up :
    let w = run (step last_futex 2) 2 (sleeper ++ (0, false) ∷ (0, false) ∷ (1, false) ∷ []) init in
    (w.pc 0 ≡ outside) × (w.pc 1 ≡ inside) × (w.mem.m ≡ 2)
unfolding run step last_futex
woken_up = (refl, refl, refl)

futex_mutual_exclusion_example : ◌≡◌ {A = ℕ} 0 0
unfolding run step last_futex
futex_mutual_exclusion_example =
    futex_mutual_exclusion last_futex last_futex_laws 2 sleeper 0 0 (omega arith) (omega arith) refl
      refl

futex_no_lost_wakeup_example :
    let w = run (step last_futex 2) 2 sleeper init in
    (j : ℕ) × (j < 2) × ((0 < awake (w.pc j)) ⊎ ((w.pc j ≡ inside) × ((unlock w.mem).1 ≡ waking)))
unfolding run step last_futex
futex_no_lost_wakeup_example =
    futex_no_lost_wakeup last_futex last_futex_laws 2 sleeper 1 (omega arith) refl

futex_word_example :
    let w = run (step last_futex 2) 2 sleeper init in
    ((w.mem.m ≡ 0) ↔ (tally holds 2 w.pc ≡ 0)) × (w.mem.m ≤ 2)
futex_word_example = futex_word last_futex last_futex_laws 2 sleeper
