-- ===== src/Fibers/Event/Tests.antt =====
-- tasks/fibers/mutex/exe/fibers/sync/event.hpp at work, and its theorems there.
use concurrency_course_by_li.Base.{ℕ, ◌+◌, ◌<◌, ◌≡◌, refl, ◌≢◌, true, List, [], ◌∷◌, ◌++◌, arith}
use concurrency_course_by_li.Threads.{tally, run}
use concurrency_course_by_li.Fibers.Mutex.Invariant.{occurs}
use concurrency_course_by_li.Fibers.Event.{
  Call, call_wait, call_fire, outside, returned, crashed, await_suspend, fire, take_fiber, act,
  schedule, step, init,
}
use concurrency_course_by_li.Fibers.Event.Invariant.{fires, schedules}
use concurrency_course_by_li.Fibers.Event.Firing.{event_wait_fired, event_no_lost_fiber}

abbrev go : ℕ → ℕ × Call
go i = (i, call_wait)

-- Fibers 1 and 2 are parked when fiber 0 fires the event.
abbrev fired : List (ℕ × Call)
fired = go 1 ∷ go 1 ∷ go 2 ∷ go 2 ∷ (0, call_fire) ∷ go 0 ∷ []

abbrev over : List (ℕ × Call)
over = fired ++ go 0 ∷ go 0 ∷ go 0 ∷ go 0 ∷ []

over_pcs :
    let w = run step 3 over init in (w.pc 0 ≡ outside) × (w.pc 1 ≡ returned) × (w.pc 2 ≡ returned)
unfolding run step act schedule await_suspend fire take_fiber
over_pcs = (refl, refl, refl)

event_wait_fired_example :
    let w = run step 3 over init in (w.mem.is_fired ≡ true) × (w.pc 0 ≢ crashed)
unfolding run step act schedule await_suspend fire take_fiber
event_wait_fired_example = event_wait_fired 3 over 1 0 (omega arith) (omega arith) refl

event_no_lost_fiber_example :
    let w = run step 3 fired init in
    (occurs 2 w.mem.wait_q + tally (schedules 2) 3 w.pc ≡ 1)
    × ((j : ℕ) × (j < 3) × (0 < fires (w.pc j)))
unfolding run step act schedule await_suspend fire take_fiber
event_no_lost_fiber_example = event_no_lost_fiber 3 fired 2 (omega arith) refl refl
