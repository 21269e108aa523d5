-- ===== src/Cond/Barrier/Rounds.antt =====
-- What tasks/cond/barrier/cyclic_barrier.hpp promises to as many threads as it has participants.
use concurrency_course_by_li.Base.{
  ℕ, ◌+◌, ◌≤◌, ◌<◌, ◌≡◌, inl, inr, Bool, true, false, List, arith, ◌==◌, Bool-cases, size_mod,
}
use concurrency_course_by_li.Threads.{tally, member_of_tally, World, run}
use concurrency_course_by_li.Cond.Barrier.{
  CyclicBarrier, limit_locking, limit_asleep, arriving, asleep, relocking, passing, departing,
  resetting, Thread, step, init,
}
use concurrency_course_by_li.Cond.Barrier.Invariant.{Inv, part, behind, present, has_lock}
use concurrency_course_by_li.Cond.Barrier.Reset.{run-Inv}

-- How often a thread has arrived: its completed calls, and the one in which it has.
abbrev pub arrivals_by : Thread → ℕ
arrivals_by t = elim t.pc [
  | asleep ↦ t.rounds + 1
  | relocking ↦ t.rounds + 1
  | passing ↦ t.rounds + 1
  | departing ↦ t.rounds + 1
  | resetting ↦ t.rounds + 1
  | _ ↦ t.rounds
]

-- Whether a thread cannot move by itself: it sleeps, or waits for the mutex.
abbrev pub is_blocked : CyclicBarrier → Thread → Bool
is_blocked b t = elim t.pc [
  | limit_asleep ↦ true
  | asleep ↦ true
  | limit_locking ↦ b.is_locked
  | arriving ↦ b.is_locked
  | relocking ↦ b.is_locked
  | _ ↦ false
]

module _ (n : ℕ) (ts : List (ℕ × Bool)) (pos : 0 < n) (small : n < size_mod) where
  abbrev reached : World CyclicBarrier Thread
  reached = run step n ts (init n)

  abbrev inv : Inv n reached
  inv = run-Inv n ts pos small

  -- With as many threads as participants, and a number of them that is positive and fits `size_t`,
  -- after every schedule, no thread has completed more calls of `ArriveAndWait` than any other has
  -- arrived in.
  pub barrier_rounds :
      (i j : ℕ) → i < n → j < n → (reached.pc i).rounds ≤ arrivals_by (reached.pc j)
  barrier_rounds i j hi hj =
      ground (
        arith,
        inv.counts,
        inv.local i hi,
        inv.local j hj,
        part n i reached hi,
        part n j reached hj,
      )

  -- With such threads, after every schedule, some thread neither sleeps nor waits for the mutex.
  pub barrier_progress : (i : ℕ) × (i < n) × (is_blocked reached.mem (reached.pc i) ≡ false)
  barrier_progress = elim (Bool-cases reached.mem.is_locked) [
    | inl locked ↦
        let (i, hi, p) =
          member_of_tally has_lock n reached.pc (ground (arith, inv.counts, locked)) in
        (i, hi, ground (arith, p))
    | inr unlocked ↦ elim (Bool-cases (tally (behind reached.mem.generation) n reached.pc == 0)) [
      | inl none_behind ↦
          let (i, hi, p) =
            member_of_tally (present reached.mem.generation) n reached.pc
              (ground (arith, inv.counts, unlocked, none_behind)) in
          (i, hi, ground (arith, p, inv.counts, inv.local i hi, unlocked, none_behind))
      | inr some_behind ↦
          let (i, hi, p) =
            member_of_tally (behind reached.mem.generation) n reached.pc
              (ground (arith, some_behind)) in
          (i, hi, ground (arith, p, inv.local i hi, unlocked))
    ]
  ]
