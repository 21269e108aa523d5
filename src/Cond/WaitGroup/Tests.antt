-- ===== src/Cond/WaitGroup/Tests.antt =====
-- tasks/cond/wait_group/wait_group.hpp at work, and its theorems there.
use concurrency_course_by_li.Base.{ℕ, ◌+◌, ◌<◌, ◌≡◌, refl, ◌↔◌, false, List, [], ◌∷◌, ◌++◌, arith}
use concurrency_course_by_li.Threads.{tally, run}
use concurrency_course_by_li.Futex.{last_futex, last_futex_laws}
use concurrency_course_by_li.Cond.WaitGroup.{
  Choice, choice, call_add, call_done, call_wait, asleep, returned, owing, act, start, step, init,
  create, add, is_open, add_counter, sub_counter, store_open, store_done,
}
use concurrency_course_by_li.Cond.WaitGroup.Invariant.{owes, stores, wakes}
use concurrency_course_by_li.Cond.WaitGroup.Waiting.{
  wait_after_done, wait_returns_iff, wait_no_lost_wakeup,
}

abbrev done : ℕ → ℕ × Choice
done i = (i, choice call_done false)

abbrev wait : ℕ → ℕ × Choice
wait i = (i, choice call_wait false)

-- Thread 2 sleeps while thread 0 adds a second call of its own and thread 1 is done.
abbrev sleeping : List (ℕ × Choice)
sleeping = wait 2 ∷ wait 2 ∷ wait 2 ∷ (0, choice (call_add 1) false) ∷ done 1 ∷ []

-- Thread 0 makes its two calls and wakes thread 2, which returns.
abbrev finished : List (ℕ × Choice)
finished = sleeping ++ done 0 ∷ done 0 ∷ done 0 ∷ done 0 ∷ wait 2 ∷ []

sleeping_pcs :
    let w = run (step last_futex) 3 sleeping (init 2) in
    (w.pc 0 ≡ owing 2) × (w.pc 1 ≡ owing 0) × (w.pc 2 ≡ asleep)
unfolding run step act start add_counter sub_counter store_open store_done is_open last_futex add
sleeping_pcs = (refl, refl, refl)

-- `Add(0)` of a fresh group opens it, though no `Done` is to come.
add_zero : add 0 create ≡ record { counter = 0; done = 0 }
unfolding add add_counter store_open
add_zero = refl

wait_after_done_example :
    let w = run (step last_futex) 3 finished (init 2) in (owes (w.pc 0) ≡ 0) × (stores (w.pc 0) ≡ 0)
unfolding run step act start add_counter sub_counter store_open store_done is_open last_futex add
wait_after_done_example =
    wait_after_done last_futex last_futex_laws 2 3 (omega arith) (omega arith) (omega arith)
      finished 2 0 (omega arith) (omega arith) refl

-- Thread 2 is at the condition of `Wait`.
abbrev before : List (ℕ × Choice)
before = wait 2 ∷ []

wait_returns_iff_example :
    let w = run (step last_futex) 3 before (init 2) in
    ((step last_futex 2 (choice call_wait false) w).pc 2 ≡ returned)
    ↔ (tally owes 3 w.pc + tally stores 3 w.pc ≡ 0)
unfolding run step act start add_counter sub_counter store_open store_done is_open last_futex add
wait_returns_iff_example =
    wait_returns_iff last_futex last_futex_laws 2 3 (omega arith) (omega arith) (omega arith) before
      2 (choice call_wait false) (omega arith) refl

wait_no_lost_wakeup_example :
    let w = run (step last_futex) 3 sleeping (init 2) in
    (j : ℕ) × (j < 3) × (0 < owes (w.pc j) + stores (w.pc j) + wakes (w.pc j))
unfolding run step act start add_counter sub_counter store_open store_done is_open last_futex add
wait_no_lost_wakeup_example =
    wait_no_lost_wakeup last_futex last_futex_laws 2 3 (omega arith) (omega arith) (omega arith)
      sleeping 2 (omega arith) refl
