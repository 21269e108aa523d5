-- ===== src/Fibers/WaitGroup/Tests.antt =====
-- Runs of tasks/fibers/mutex/exe/fibers/sync/wait_group.hpp.
use concurrency_course_by_li.Base.{
  ℕ, zero, suc, ◌+◌, ◌<◌, ◌≡◌, refl, ap, ◌≢◌, ◌⊎◌, List, [], ◌∷◌, ◌++◌, map, arith, if◌then◌else◌,
}
use concurrency_course_by_li.Threads.{World, turn, run}
use concurrency_course_by_li.Fibers.WaitGroup.{
  add_calls, WaitGroup, Pc, parked, spinning, leaving, returned, checking, crashed, Call, call_wait,
  call_done, count_wait, uncount_wait, count_down, try_enqueue, take_fiber, complete_last, act,
  schedule, step, init,
}
use concurrency_course_by_li.Fibers.WaitGroup.Invariant.{completes}
use concurrency_course_by_li.Fibers.WaitGroup.Waiting.{
  stays, is_returned, fiber_wait_after_done, fiber_wait_no_lost_fiber,
}

abbrev turns : ℕ → Call → ℕ → List (ℕ × Call)
turns i c zero = []
turns i c (suc k) = (i, c) ∷ turns i c k

-- Fiber 0 is parked, and fiber 1 has counted down.
abbrev counted : List (ℕ × Call)
counted = turns 0 call_wait 2 ++ turns 1 call_done 1

abbrev after_count : World WaitGroup Pc
after_count = run step 2 counted (init 1)

after_count_over : after_count.mem.owed ≡ 0
unfolding add_calls run turn step act schedule count_wait count_down try_enqueue
after_count_over = refl

after_count_parked : after_count.pc 0 ≡ parked
unfolding add_calls run turn step act schedule count_wait count_down try_enqueue
after_count_parked = refl

fiber_wait_no_lost_fiber_example :
    ((j : ℕ) × (j < 2) × (0 < completes (after_count.pc j)))
    ⊎ ((step 0 call_wait after_count).pc 0 ≡ leaving)
fiber_wait_no_lost_fiber_example =
    fiber_wait_no_lost_fiber 2 1 (omega arith) (omega arith) counted 0 call_wait (omega arith)
      after_count_over (ap stays after_count_parked)

-- `Done` schedules fiber 0, whose `Wait` returns.
abbrev finished : List (ℕ × Call)
finished = counted ++ turns 1 call_done 5 ++ turns 0 call_wait 1

abbrev after_all : World WaitGroup Pc
after_all = run step 2 finished (init 1)

after_all_returned : after_all.pc 0 ≡ returned
unfolding add_calls run turn step act schedule count_wait count_down try_enqueue take_fiber
    complete_last uncount_wait
after_all_returned = refl

fiber_wait_after_done_example :
    (after_all.pc 0 ≢ crashed)
    × ((if is_returned (after_all.pc 0)
          then after_all.mem.owed + after_all.mem.done_calls_countdown
          else 0)
        ≡ 0)
fiber_wait_after_done_example =
    fiber_wait_after_done 2 1 (omega arith) (omega arith) finished 0 (omega arith)

-- Two calls of `Wait` that come behind the last count both return before `Done` has looked at the
-- queue.
abbrev overtaking : List (ℕ × Call)
overtaking =
    turns 2 call_done 1
    ++ turns 0 call_wait 2
    ++ turns 1 call_wait 2
    ++ turns 0 call_wait 1
    ++ turns 1 call_wait 2
    ++ turns 0 call_wait 1

overtaking_done :
    map (run step 3 overtaking (init 1)).pc (0 ∷ 1 ∷ 2 ∷ []) ≡ returned ∷ returned ∷ checking ∷ []
unfolding add_calls run turn step act schedule count_wait count_down try_enqueue uncount_wait
overtaking_done = refl

-- Without any `Add`, `Wait` stays in its loop.
wait_without_add : (run step 1 (turns 0 call_wait 9) (init 0)).pc 0 ≡ spinning
unfolding add_calls run turn step act schedule count_wait try_enqueue
wait_without_add = refl
