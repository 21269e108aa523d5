-- ===== src/Fibers/Event/Invariant.antt =====
-- How the queue of tasks/fibers/mutex/exe/fibers/sync/event.hpp goes with the fibers, and that every
-- step keeps this.
use concurrency_course_by_li.Base.{
  ℕ, ◌+◌, ◌≤◌, ◌<◌, ◌≡◌, Bool, true, false, not, ◌&&◌, ◌==◌, if◌then◌else◌,
}
use concurrency_course_by_li.Threads.{tally, World}
use concurrency_course_by_li.Fibers.Mutex.{is_empty}
use concurrency_course_by_li.Fibers.Mutex.Invariant.{occurs}
use concurrency_course_by_li.Fibers.Event.{
  Event, Pc, parked, returned, firing, draining, scheduling, crashed,
}

-- In `Fire`.
abbrev pub fires : Pc → ℕ
fires firing = 1
fires draining = 1
fires (scheduling _ _) = 1
fires _ = 0

abbrev pub schedules : ℕ → Pc → ℕ
schedules j (scheduling k _) = if k == j then 1 else 0
schedules j _ = 0

abbrev pub parks : Pc → ℕ
parks parked = 1
parks _ = 0

-- What a fiber at a place knows of the event.
abbrev pub knows : Event → Pc → Bool
knows v returned = v.is_fired
knows v firing = not v.is_fired
knows v draining = v.is_fired && not (is_empty v.wait_q)
knows v (scheduling _ true) = v.is_fired && is_empty v.wait_q
knows v (scheduling _ false) = v.is_fired && not (is_empty v.wait_q)
knows v crashed = false
knows _ _ = true

-- The fiber `j`, if there is one, is parked as long as it is in the queue or about to be scheduled.
pub record Each (n : ℕ) (w : World Event Pc) (j : ℕ) : Type 0 where
  pub known : j < n → knows w.mem (w.pc j) ≡ true
  pub waits : j < n → occurs j w.mem.wait_q + tally (schedules j) n w.pc ≡ parks (w.pc j)
  pub members : n ≤ j → occurs j w.mem.wait_q + tally (schedules j) n w.pc ≡ 0

pub record Counts (n : ℕ) (w : World Event Pc) : Type 0 where
  pub uncalled : w.mem.is_called ≡ false → (tally fires n w.pc ≡ 0) × (w.mem.is_fired ≡ false)
  pub one : tally fires n w.pc ≤ 1
  pub over : w.mem.is_fired ≡ true → tally fires n w.pc ≡ 0 → is_empty w.mem.wait_q ≡ true

pub record Inv (n : ℕ) (w : World Event Pc) : Type 0 where
  pub counts : Counts n w
  pub each : (j : ℕ) → Each n w j
