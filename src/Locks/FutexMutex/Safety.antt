-- ===== src/Locks/FutexMutex/Safety.antt =====
-- What the futex mutex (tasks/mutex/mutex/mutex.hpp) promises in every reachable state.
use concurrency_course_by_li.Base.{
  ℕ, ◌≤◌, ◌<◌, ◌≡◌, ◌↔◌, ◌⊎◌, inl, inr, Bool, List, arith, ◌==◌, ==_iff, Bool-cases,
}
use concurrency_course_by_li.Threads.{tally, le-tally, add-le-tally, member_of_tally, World, run}
use concurrency_course_by_li.Futex.{Futex, FutexLaws}
use concurrency_course_by_li.Locks.FutexMutex.{
  Mutex, Pc, asleep, inside, waking, step, init, sleeping, unlock,
}
use concurrency_course_by_li.Locks.FutexMutex.Invariant.{holds, sleeps, awake, run-Inv}

module _ (f : Futex) (laws : FutexLaws f) (n : ℕ) (ts : List (ℕ × Bool)) where
  abbrev reached : World Mutex Pc
  reached = run (step f n) n ts init

  -- After every schedule of `Lock` and `Unlock` by `n` threads, two threads inside are the same.
  pub futex_mutual_exclusion :
      (i j : ℕ) → i < n → j < n → reached.pc i ≡ inside → reached.pc j ≡ inside → i ≡ j
  futex_mutual_exclusion i j hi hj pi pj = elim (Bool-cases (i == j)) [
    | inl same ↦ (==_iff i j).0 same
    | inr other ↦ ground (arith, run-Inv f laws n ts, add-le-tally holds n reached.pc i j)
  ]

  -- No wakeup is lost: if a thread sleeps in the futex, then a thread is on its way through `Lock`
  -- or about to call `WakeOne`, or a thread is inside that will call `WakeOne` when it unlocks.
  pub futex_no_lost_wakeup :
      (i : ℕ)
      → i < n
      → reached.pc i ≡ asleep
      → (j : ℕ) × (j < n)
        × ((0 < awake (reached.pc j))
            ⊎ ((reached.pc j ≡ inside) × ((unlock reached.mem).1 ≡ waking)))
  unfolding unlock
  futex_no_lost_wakeup i lt e = elim (Bool-cases (reached.mem.m == sleeping)) [
    | inl two ↦
        let (j, hj, pos) =
          member_of_tally holds n reached.pc (ground (arith, run-Inv f laws n ts)) in
        (j, hj, inr (ground arith))
    | inr other ↦
        let (j, hj, pos) =
          member_of_tally awake n reached.pc
            (ground (arith, run-Inv f laws n ts, le-tally sleeps n reached.pc i)) in
        (j, hj, inl pos)
  ]

  -- The word is 0 exactly when no thread is inside, and never holds anything but a `Status`.
  pub futex_word : ((reached.mem.m ≡ 0) ↔ (tally holds n reached.pc ≡ 0)) × (reached.mem.m ≤ 2)
  futex_word = ground (arith, run-Inv f laws n ts)
