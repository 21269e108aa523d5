-- ===== src/Locks/SpinLock/Tests.antt =====
-- The test-and-set lock (tasks/mutex/spinlock) at work, and its theorems there.
use concurrency_course_by_li.Base.{ℕ, ◌≡◌, refl, ◌↔◌, true, List, [], ◌∷◌, ◌++◌, arith}
use concurrency_course_by_li.Threads.{tally, run}
use concurrency_course_by_li.Locks.SpinLock.{
  Call, call_lock, call_try_lock, inside, spinning, outside, step, init, try_lock, holds,
}
use concurrency_course_by_li.Locks.SpinLock.Exclusion.{
  spin_mutual_exclusion, spin_try_lock_iff, spin_progress,
}

-- Thread 0 is inside, thread 1 spins.
abbrev contended : List (ℕ × Call)
contended = (0, call_lock) ∷ (1, call_lock) ∷ []

contended_pcs : let w = run step 2 contended init in (w.pc 0 ≡ inside) × (w.pc 1 ≡ spinning)
unfolding run step
contended_pcs = (refl, refl)

-- Thread 1 goes in after thread 0 has left; a `TryLock` of thread 0 then fails.
handed_over :
    let w =
      run step 2 (contended ++ (0, call_lock) ∷ (1, call_lock) ∷ (0, call_try_lock) ∷ []) init in
    (w.pc 0 ≡ outside) × (w.pc 1 ≡ inside)
unfolding run step
handed_over = (refl, refl)

spin_mutual_exclusion_example : ◌≡◌ {A = ℕ} 0 0
unfolding run step
spin_mutual_exclusion_example =
    spin_mutual_exclusion 2 contended 0 0 (omega arith) (omega arith) refl refl

spin_try_lock_iff_example :
    let w = run step 2 contended init in ((try_lock w.mem).1 ≡ true) ↔ (tally holds 2 w.pc ≡ 0)
spin_try_lock_iff_example = spin_try_lock_iff 2 contended

spin_progress_example :
    let w = run step 2 contended init in
    ((step 1 call_lock w).pc 1 ≡ inside) ↔ (tally holds 2 w.pc ≡ 0)
unfolding run step
spin_progress_example = spin_progress 2 contended 1 call_lock refl
