-- ===== src/Cond/BoundedQueue/Safety.antt =====
-- What the bounded queue (tasks/cond/semaphore/queue.hpp) promises in every reachable state.
use concurrency_course_by_li.Base.{
  ℕ, ◌+◌, ◌≤◌, ◌<◌, ◌≡◌, ◌≢◌, inl, inr, Option, none, some, List, [], arith, ◌==◌, ==_iff,
  Bool-cases, length, size_mod,
}
use concurrency_course_by_li.Threads.{
  le-tally, add-le-tally, tally-eq-zero, tally-map_le, World, run,
}
use concurrency_course_by_li.Cond.Semaphore.{Semaphore}
use concurrency_course_by_li.Cond.BoundedQueue.{
  Queue, token_asleep, mutex_asleep, at_buffer, Pc, outside, putting, taking, Call, step, init,
}
use concurrency_course_by_li.Cond.BoundedQueue.Invariant.{
  in_mutex, has_token, extra, sleeps_free, sleeps_avail, sleeps_mutex,
}
use concurrency_course_by_li.Cond.BoundedQueue.Order.{run-Inv}

-- The semaphore on which a thread sleeps.
abbrev pub sleeps_on : {T : Type 0} → Queue T → Pc T → Option Semaphore
sleeps_on q (putting _ token_asleep) = some q.free_sem
sleeps_on q (taking token_asleep) = some q.avail_sem
sleeps_on q (putting _ mutex_asleep) = some q.mutex_sem
sleeps_on q (taking mutex_asleep) = some q.mutex_sem
sleeps_on q _ = none

module _ {T : Type 0} (n capacity : ℕ) (small : capacity < size_mod) (ts : List (ℕ × Call T)) where
  abbrev reached : World (Queue T) (Pc T)
  reached = run step n ts (init capacity)

  -- With a capacity that fits `size_t`, after every schedule the buffer holds at most `capacity`
  -- values.
  pub queue_bounded : length reached.mem.buffer ≤ capacity
  queue_bounded = ground (
    arith,
    run-Inv n capacity small ts,
    tally-map_le extra has_token (λ p. p) (λ p. ground arith) n reached.pc,
  )

  -- With a capacity that fits `size_t`, a thread that is about to pop finds a value: the buffer is
  -- not empty.
  pub queue_pop_safe : (i : ℕ) → i < n → reached.pc i ≡ taking at_buffer → reached.mem.buffer ≢ []
  queue_pop_safe i lt e = ground (arith, run-Inv n capacity small ts, le-tally extra n reached.pc i)

  -- With a capacity that fits `size_t`, at most one thread is at the buffer.
  pub queue_exclusion :
      (i j : ℕ) → i < n → j < n → in_mutex (reached.pc i) ≡ 1 → in_mutex (reached.pc j) ≡ 1 → i ≡ j
  queue_exclusion i j hi hj ei ej = elim (Bool-cases (i == j)) [
    | inl same ↦ (==_iff i j).0 same
    | inr other ↦
        ground (arith, run-Inv n capacity small ts, add-le-tally in_mutex n reached.pc i j)
  ]

  -- With a capacity that fits `size_t`, no wakeup is lost: a semaphore on which a thread sleeps has
  -- no token.
  pub queue_no_lost_wakeup :
      (i : ℕ) (s : Semaphore) → i < n → sleeps_on reached.mem (reached.pc i) ≡ some s → s.tokens ≡ 0
  queue_no_lost_wakeup i s lt e = ground (
    arith,
    run-Inv n capacity small ts,
    le-tally sleeps_free n reached.pc i,
    le-tally sleeps_avail n reached.pc i,
    le-tally sleeps_mutex n reached.pc i,
  )

  -- With a capacity that fits `size_t`, and while no call is under way, the tokens of the two
  -- counting semaphores are the free and the taken places of the buffer.
  pub queue_quiet_tokens :
      ((i : ℕ) → i < n → reached.pc i ≡ outside)
      → (reached.mem.avail_sem.tokens ≡ length reached.mem.buffer)
        × (reached.mem.free_sem.tokens + length reached.mem.buffer ≡ capacity)
        × (reached.mem.mutex_sem.tokens ≡ 1)
  queue_quiet_tokens quiet = ground (
    arith,
    run-Inv n capacity small ts,
    tally-eq-zero in_mutex n reached.pc (λ i lt. ground (arith, quiet i)),
    tally-eq-zero has_token n reached.pc (λ i lt. ground (arith, quiet i)),
    tally-eq-zero extra n reached.pc (λ i lt. ground (arith, quiet i)),
  )
