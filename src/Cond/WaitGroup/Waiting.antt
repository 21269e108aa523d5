-- ===== src/Cond/WaitGroup/Waiting.antt =====
-- What `Wait` of tasks/cond/wait_group/wait_group.hpp waits for, and that it is woken up.
use concurrency_course_by_li.Base.{
  ℕ, ◌+◌, ◌≤◌, ◌<◌, ◌≡◌, ◌↔◌, inl, inr, List, arith, ◌==◌, Bool-cases,
}
use concurrency_course_by_li.Threads.{tally, le-tally, member_of_tally, World, run}
use concurrency_course_by_li.Futex.{Futex, FutexLaws}
use concurrency_course_by_li.Cond.WaitGroup.{
  WaitGroup, Pc, Choice, checking, asleep, returned, act, step, init, is_open, word_mod,
}
use concurrency_course_by_li.Cond.WaitGroup.Invariant.{
  owes, stores, wakes, sleeps, returns, run-Inv,
}

module _ (f : Futex) (laws : FutexLaws f) (count n : ℕ) (pos : 0 < count) (le : count ≤ n)
    (small : count < word_mod) (ts : List (ℕ × Choice)) where
  abbrev reached : World WaitGroup Pc
  reached = run (step f) n ts (init count)

  -- With a first `Add` of a positive count that fits 32 bits and is at most the number `n` of
  -- threads, after every schedule, once a `Wait` has returned, no thread owes a `Done` or stands
  -- before the store in one.
  pub wait_after_done :
      (i j : ℕ)
      → i < n
      → j < n
      → reached.pc i ≡ returned
      → (owes (reached.pc j) ≡ 0) × (stores (reached.pc j) ≡ 0)
  wait_after_done i j hi hj e =
      let inv = run-Inv f laws count n pos le small ts in
      ground (
        arith,
        inv,
        le-tally returns n reached.pc i hi,
        le-tally owes n reached.pc j hj,
        le-tally stores n reached.pc j hj,
      )

  -- With such a first `Add`, after every schedule, the next turn of a thread at the condition of
  -- `Wait` returns exactly when no thread owes a `Done` or stands before the store in one.
  pub wait_returns_iff :
      (i : ℕ) (c : Choice)
      → i < n
      → reached.pc i ≡ checking
      → ((step f i c reached).pc i ≡ returned)
        ↔ (tally owes n reached.pc + tally stores n reached.pc ≡ 0)
  unfolding step act is_open
  wait_returns_iff i c lt e =
      let inv = run-Inv f laws count n pos le small ts in ground (arith, inv)

  -- With such a first `Add`, after every schedule, if a thread sleeps in `Wait`, then some thread owes
  -- a `Done`, or stands before the store or before `WakeAll` in one.
  pub wait_no_lost_wakeup :
      (i : ℕ)
      → i < n
      → reached.pc i ≡ asleep
      → (j : ℕ) × (j < n) × (0 < owes (reached.pc j) + stores (reached.pc j) + wakes (reached.pc j))
  wait_no_lost_wakeup i lt e =
      let inv = run-Inv f laws count n pos le small ts in
      elim (Bool-cases (reached.mem.counter == 0)) [
        | inl over ↦ elim (Bool-cases (reached.mem.done == 1)) [
          | inl set ↦
              let (j, hj, p) =
                member_of_tally wakes n reached.pc
                  (ground (arith, inv.heard, le-tally sleeps n reached.pc i lt)) in
              (j, hj, omega arith)
          | inr unset ↦
              let (j, hj, p) =
                member_of_tally stores n reached.pc (ground (arith, inv.over, inv.flag)) in
              (j, hj, omega arith)
        ]
        | inr more ↦
            let (j, hj, p) = member_of_tally owes n reached.pc (ground (arith, inv.owed)) in
            (j, hj, omega arith)
      ]
