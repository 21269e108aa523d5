-- ===== src/Fibers/Mutex/Parking.antt =====
-- What tasks/fibers/mutex/exe/fibers/sync/mutex.hpp promises in every reachable state.
use concurrency_course_by_li.Base.{
  ℕ, ◌+◌, ◌≤◌, ◌<◌, ◌≡◌, ◌≢◌, inl, inr, Bool, List, arith, ◌==◌, ==_iff, Bool-cases,
}
use concurrency_course_by_li.Threads.{tally, add-le-tally, tally-none, World, run}
use concurrency_course_by_li.Fibers.Mutex.{Mutex, Pc, inside, crashed, step, init}
use concurrency_course_by_li.Fibers.Mutex.Invariant.{
  occurs-empty, Inv, owns, schedules, occurs, parks,
}
use concurrency_course_by_li.Fibers.Mutex.Reach.{run-Inv}

schedules-owns : (i : ℕ) (p : Pc) → owns p ≡ 0 → schedules i p ≡ 0
schedules-owns i p e = ground (arith, e)

module _ (n : ℕ) (ts : List (ℕ × Bool)) where
  abbrev reached : World Mutex Pc
  reached = run step n ts init

  abbrev inv : Inv n reached
  inv = run-Inv n ts

  -- After every schedule of `Lock` and `Unlock` by `n` fibers, two fibers that are inside are the
  -- same.
  pub fiber_mutex_exclusion :
      (i j : ℕ) → i < n → j < n → reached.pc i ≡ inside → reached.pc j ≡ inside → i ≡ j
  fiber_mutex_exclusion i j hi hj pi pj = elim (Bool-cases (i == j)) [
    | inl same ↦ (==_iff i j).0 same
    | inr other ↦ ground (arith, inv.owned, add-le-tally owns n reached.pc i j)
  ]

  waits_once :
      (i : ℕ)
      → i < n
      → occurs i reached.mem.park_q + tally (schedules i) n reached.pc ≡ parks (reached.pc i)
  waits_once i hi = ground (arith, inv.each i, hi)

  -- After every schedule of `Lock` and `Unlock` by `n` fibers, a fiber has not asked an empty queue
  -- for a fiber; it is in the queue once or about to be scheduled by one fiber, but not both, if it is
  -- parked, and neither if not; and if it is parked, some fiber has the mutex or is handing it over.
  pub fiber_mutex_parked :
      (i : ℕ)
      → i < n
      → (reached.pc i ≢ crashed)
        × (occurs i reached.mem.park_q + tally (schedules i) n reached.pc ≡ parks (reached.pc i))
        × (parks (reached.pc i) ≤ tally owns n reached.pc)
  fiber_mutex_parked i hi = (
    λ z. ground (arith, z, hi, inv.each i),
    waits_once i hi,
    ground (
      arith,
      waits_once i hi,
      inv.owned,
      inv.waiters,
      occurs-empty i reached.mem.park_q,
      tally-none owns (schedules i) (schedules-owns i) n reached.pc,
    ),
  )
