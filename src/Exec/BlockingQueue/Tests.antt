-- ===== src/Exec/BlockingQueue/Tests.antt =====
-- The blocking queue (tasks/tasks/thread-pool/tp/queue.hpp) at work, and its theorems there.
use concurrency_course_by_li.Base.{
  ℕ, ◌<◌, ◌≡◌, refl, ◌⊎◌, inl, false, some, List, [], ◌∷◌, ◌++◌, arith,
}
use concurrency_course_by_li.Threads.{World, run}
use concurrency_course_by_li.Futex.{last_asleep, last_asleep-PicksSleeper}
use concurrency_course_by_li.Exec.BlockingQueue.{
  Queue, Pc, outside, notifying, woken, closing, Call, call_put, call_take, call_close,
  take_returned, put_returned, step, init, create,
}
use concurrency_course_by_li.Exec.BlockingQueue.Order.{blocking_queue_fifo, close_final}
use concurrency_course_by_li.Exec.BlockingQueue.Wakeups.{blocking_queue_no_lost_wakeup}

-- Thread 1 sleeps in `Take`, and thread 0 has put a value and not yet notified.
abbrev put_early : List (ℕ × Call ℕ)
put_early = (1, call_take) ∷ (0, call_put 7) ∷ []

abbrev start : World (Queue ℕ) (Pc ℕ)
start = init

-- Thread 0 notifies, thread 1 takes the value; after `Close` a `Put` is refused and `Take` returns
-- nothing.
put_then_close :
    let w =
      run
        (step last_asleep 2)
        2
        (put_early
          ++ (0, call_take)
            ∷ (1, call_take)
            ∷ (0, call_close)
            ∷ (0, call_close)
            ∷ (0, call_put 8)
            ∷ [])
        start in
    (w.pc 1 ≡ outside (take_returned (some 7))) × (w.pc 0 ≡ outside (put_returned false))
unfolding run step last_asleep
put_then_close = (refl, refl)

blocking_queue_fifo_example :
    let q = (run (step last_asleep 2) 2 put_early init).mem in q.accepted ≡ q.taken ++ q.queue
blocking_queue_fifo_example = blocking_queue_fifo last_asleep 2 put_early

-- A closed queue that holds a value.
abbrev closed : World (Queue ℕ) (Pc ℕ)
closed = record start {
  mem = record create { is_opened = false; queue = 7 ∷ []; accepted = 7 ∷ [] };
}

close_final_example :
    let q = (run (step last_asleep 2) 2 put_early closed).mem in
    (q.is_opened ≡ false) × (q.accepted ≡ 7 ∷ []) × (q.taken ++ q.queue ≡ 7 ∷ [])
close_final_example = close_final last_asleep 2 closed put_early refl

blocking_queue_no_lost_wakeup_example :
    let w = run (step last_asleep 2) 2 put_early init in
    (j : ℕ) × (j < 2) × ((w.pc j ≡ notifying) ⊎ (w.pc j ≡ woken) ⊎ (w.pc j ≡ closing))
unfolding run step
blocking_queue_no_lost_wakeup_example =
    blocking_queue_no_lost_wakeup last_asleep last_asleep-PicksSleeper 2 put_early 1 (omega arith)
      refl (inl (λ e. cc))
