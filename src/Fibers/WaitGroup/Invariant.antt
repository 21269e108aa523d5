-- ===== src/Fibers/WaitGroup/Invariant.antt =====
-- How the queue of tasks/fibers/mutex/exe/fibers/sync/wait_group.hpp goes with the fibers.
use concurrency_course_by_li.Base.{
  ℕ, ◌+◌, ◌^◌, ◌≤◌, ◌<◌, ◌≡◌, Bool, true, false, not, ◌&&◌, ◌==◌, if◌then◌else◌,
}
use concurrency_course_by_li.Threads.{tally, World}
use concurrency_course_by_li.Fibers.Mutex.{is_empty}
use concurrency_course_by_li.Fibers.Mutex.Invariant.{occurs}
use concurrency_course_by_li.Fibers.WaitGroup.{
  WaitGroup, Pc, parked, rescheduling, spinning, leaving, returned, checking, completing, taking,
  looking, marking, scheduling, crashed,
}

-- In `Done` behind the last count.
abbrev pub completes : Pc → ℕ
completes checking = 1
completes completing = 1
completes taking = 1
completes (looking _) = 1
completes (marking _) = 1
completes (scheduling _ _) = 1
completes _ = 0

abbrev pub schedules : ℕ → Pc → ℕ
schedules j (looking k) = if k == j then 1 else 0
schedules j (marking k) = if k == j then 1 else 0
schedules j (scheduling k _) = if k == j then 1 else 0
schedules j _ = 0

abbrev pub parks : Pc → ℕ
parks parked = 1
parks _ = 0

abbrev pub is_over : WaitGroup → Bool
is_over g = g.owed == 0

-- What a fiber at a place knows of the wait group.
abbrev pub knows : WaitGroup → Pc → Bool
knows g rescheduling = is_over g
knows g spinning = is_over g
knows g leaving = is_over g
knows g returned = is_over g
knows g checking = is_over g
knows g completing = is_over g && is_empty g.wait_q
knows g taking = is_over g && not (is_empty g.wait_q)
knows g (looking _) = is_over g
knows g (marking _) = is_over g && is_empty g.wait_q
knows g (scheduling _ true) = is_over g && is_empty g.wait_q && g.is_last_wait_completed
knows g (scheduling _ false) = is_over g && not (is_empty g.wait_q)
knows g crashed = false
knows _ _ = true

-- The fiber `j`, if there is one, is parked as long as it is in the queue or about to be scheduled.
pub record Each (n : ℕ) (w : World WaitGroup Pc) (j : ℕ) : Type 0 where
  pub known : j < n → knows w.mem (w.pc j) ≡ true
  pub waits : j < n → occurs j w.mem.wait_q + tally (schedules j) n w.pc ≡ parks (w.pc j)
  pub members : n ≤ j → occurs j w.mem.wait_q + tally (schedules j) n w.pc ≡ 0

pub record Counts (n : ℕ) (w : World WaitGroup Pc) : Type 0 where
  pub countdown : w.mem.done_calls_countdown ≡ w.mem.owed
  pub small : w.mem.owed < 2 ^ 32
  pub early : 0 < w.mem.owed → tally completes n w.pc ≡ 0
  pub one : tally completes n w.pc ≤ 1
  pub over :
      w.mem.owed ≡ 0
      → tally completes n w.pc ≡ 0
      → (is_empty w.mem.wait_q ≡ true) × (w.mem.is_last_wait_completed ≡ true)

pub record Inv (n : ℕ) (w : World WaitGroup Pc) : Type 0 where
  pub counts : Counts n w
  pub each : (j : ℕ) → Each n w j
