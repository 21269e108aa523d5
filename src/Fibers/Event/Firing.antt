-- ===== src/Fibers/Event/Firing.antt =====
-- What tasks/fibers/mutex/exe/fibers/sync/event.hpp promises in every reachable state.
use concurrency_course_by_li.Base.{ℕ, ◌+◌, ◌<◌, ◌≡◌, ◌≢◌, true, List, arith}
use concurrency_course_by_li.Threads.{tally, member_of_tally, tally-none, World, run}
use concurrency_course_by_li.Fibers.Mutex.Invariant.{occurs, occurs-empty}
use concurrency_course_by_li.Fibers.Event.{Event, Pc, Call, parked, returned, crashed, step, init}
use concurrency_course_by_li.Fibers.Event.Invariant.{fires, schedules, Inv}
use concurrency_course_by_li.Fibers.Event.Reach.{run-Inv}

schedules-fires : (i : ℕ) (p : Pc) → fires p ≡ 0 → schedules i p ≡ 0
schedules-fires i p e = ground (arith, e)

module _ (n : ℕ) (ts : List (ℕ × Call)) where
  abbrev reached : World Event Pc
  reached = run step n ts init

  abbrev inv : Inv n reached
  inv = run-Inv n ts

  -- After every schedule of calls of `Wait` and one of `Fire` by `n` fibers, a `Wait` that is over
  -- finds the event fired, and no fiber asks an empty queue for a fiber.
  pub event_wait_fired :
      (i k : ℕ)
      → i < n
      → k < n
      → reached.pc i ≡ returned
      → (reached.mem.is_fired ≡ true) × (reached.pc k ≢ crashed)
  event_wait_fired i k hi hk e =
      (ground (arith, inv.each i, hi, e), λ z. ground (arith, z, hk, inv.each k))

  -- After every such schedule in which the event was fired, a fiber that is still parked is in the
  -- queue once, or about to be scheduled, and another fiber is on its way through the loop of `Fire`.
  pub event_no_lost_fiber :
      (i : ℕ)
      → i < n
      → reached.mem.is_fired ≡ true
      → reached.pc i ≡ parked
      → (occurs i reached.mem.wait_q + tally (schedules i) n reached.pc ≡ 1)
        × ((j : ℕ) × (j < n) × (0 < fires (reached.pc j)))
  event_no_lost_fiber i lt fired e =
      let here : occurs i reached.mem.wait_q + tally (schedules i) n reached.pc ≡ 1 =
        ground (arith, inv.each i, lt, e) in
      let someone : 0 < tally fires n reached.pc = ground (
        arith,
        here,
        fired,
        inv.counts.over,
        occurs-empty i reached.mem.wait_q,
        tally-none fires (schedules i) (schedules-fires i) n reached.pc,
      ) in
      (here, member_of_tally fires n reached.pc someone)
