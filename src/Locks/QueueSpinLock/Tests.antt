-- ===== src/Locks/QueueSpinLock/Tests.antt =====
-- Runs of tasks/mutex/queue/queue_spinlock.hpp.
use concurrency_course_by_li.Base.{
  ℕ, zero, suc, ◌<◌, ◌≡◌, refl, ap, ◌≢◌, ◌⊎◌, true, none, some, List, [], ◌∷◌, ◌++◌, arith,
}
use concurrency_course_by_li.Threads.{World, turn, run}
use concurrency_course_by_li.Locks.QueueSpinLock.{
  take_turn, Lock, Guard, linking, inside, Turn, enter, store_owner, same_guard, clear_tail,
  look_next, load_next, act, touch, step, init,
}
use concurrency_course_by_li.Locks.QueueSpinLock.Invariant.{in_line, owns, prev_of}
use concurrency_course_by_li.Locks.QueueSpinLock.Order.{
  is_safe, queue_lock_order, queue_lock_guard_exists, queue_lock_progress,
}

abbrev turns : ℕ → ℕ → List (ℕ × Turn)
turns i zero = []
turns i (suc k) = (i, take_turn) ∷ turns i k

-- Thread 0 is behind `Acquire`, and thread 1 is about to link its guard.
abbrev one_waits : List (ℕ × Turn)
one_waits = turns 0 3 ++ turns 1 2

abbrev waiting : World Lock Guard
waiting = run step 2 one_waits init

one_waits_inside : (waiting.pc 0).pc ≡ inside
unfolding run turn step act enter store_owner touch
one_waits_inside = refl

one_waits_linking : (waiting.pc 1).pc ≡ linking 0
unfolding run turn step act enter store_owner touch
one_waits_linking = refl

queue_lock_order_example :
    (◌≡◌ {A = ℕ} 0 1)
    ⊎ (((waiting.pc 0).ticket < (waiting.pc 1).ticket) × ((waiting.pc 1).pc ≢ inside))
queue_lock_order_example =
    queue_lock_order 2 one_waits 0 1 (omega arith) (omega arith) one_waits_inside
      (ap in_line one_waits_linking)

queue_lock_guard_exists_example : is_safe 2 waiting.pc (waiting.pc 1).pc ≡ true
queue_lock_guard_exists_example = queue_lock_guard_exists 2 one_waits 1 (omega arith)

-- Thread 0 is in `Release` and goes round its loop, since thread 1 has not linked its guard.
abbrev round : List (ℕ × Turn)
round = one_waits ++ turns 0 3

abbrev looping : World Lock Guard
looping = run step 2 round init

round_waits : (looping.pc 1).pc ≡ linking 0
unfolding run turn step act enter store_owner touch clear_tail look_next same_guard
round_waits = refl

queue_lock_progress_example :
    (j : ℕ) × (j < 2)
    × (owns (looping.pc j).is_owner (looping.pc j).pc ≡ true)
    × (((looping.pc j).next ≢ none)
        ⊎ ((looping.mem.tail ≡ some j)
            ⊎ ((k : ℕ) × (k < 2) × (prev_of (looping.pc k).pc ≡ some j))))
queue_lock_progress_example = queue_lock_progress 2 round 1 (omega arith) (ap in_line round_waits)

-- The lock is handed over.
handed_over : ((run step 2 (round ++ turns 1 1 ++ turns 0 4 ++ turns 1 1) init).pc 1).pc ≡ inside
unfolding run turn step act enter store_owner touch clear_tail look_next load_next same_guard
handed_over = refl
