-- ===== src/Exec/Strand/ListSafety.antt =====
-- What the strand (tasks/tasks/executors/exe/executors/strand.cpp) promises in every reachable
-- state, if its queue is a list.
use concurrency_course_by_li.Base.{
  ℕ, ◌+◌, ◌^◌, ◌≤◌, ◌<◌, ◌≡◌, refl, sym, ap, ◌∙◌, ◌≢◌, inl, inr, Bool, true, false, List, [], ◌∷◌,
  ◌++◌, append-nil, arith, ◌==◌, ==_iff, Bool-cases, length,
}
use mathlib.Core.Path.{ap₂}
use concurrency_course_by_li.Threads.{tally, le-tally, add-le-tally, tally-eq-zero, World, run}
use concurrency_course_by_li.Exec.Strand.{
  Strand, Pc, outside, run_take, run_taken, run_check, run_tasks, run_sub, crashed, Call, step,
  init,
}
use concurrency_course_by_li.Exec.Strand.Invariant.{
  drives, holds_ref, crashes, unpopped, unsized, unscheduled, count, Inv,
}
use concurrency_course_by_li.Exec.Strand.Order.{gather, gather-none, run-InOrder}

-- Inside `Run`, up to its `ReleaseRef`.
abbrev pub runs : {T : Type 0} → Pc T → Bool
runs (run_take _) = true
runs (run_taken _ _) = true
runs (run_check _) = true
runs (run_tasks _ _) = true
runs (run_sub _) = true
runs _ = false

nil_of_length : {T : Type 0} (xs : List T) → length xs ≡ 0 → xs ≡ []
nil_of_length [] h = refl
nil_of_length (x ∷ xs) h = absurd (omega arith)

module _ {T : Type 0} (n : ℕ) (few : n < 2 ^ 62) (ts : List (ℕ × Call T))
    (short : length ts < 2 ^ 62) where
  abbrev reached : World (Strand T) (Pc T)
  reached = run step n ts init

  inv : Inv (0 + length ts) reached.mem (count n reached.pc)
  inv = (run-InOrder n ts few short).0

  -- Fewer than 2^62 threads, in fewer than 2^62 steps: the `Take().value()` of `Run` always finds a
  -- task.
  pub list_strand_never_crashes : (i : ℕ) → i < n → reached.pc i ≢ crashed
  list_strand_never_crashes i lt e = ground (arith, inv, le-tally crashes n reached.pc i)

  -- Fewer than 2^62 threads, in fewer than 2^62 steps: tasks of the strand never run at the same
  -- time. Two threads that run it are the same, and while one runs it no further `Run` waits in the
  -- executor.
  pub list_strand_serial :
      (i j : ℕ)
      → i < n
      → j < n
      → runs (reached.pc i) ≡ true
      → runs (reached.pc j) ≡ true
      → (i ≡ j) × (reached.mem.submitted ≡ 0)
  list_strand_serial i j hi hj ri rj = elim (Bool-cases (i == j)) [
    | inl same ↦ ((==_iff i j).0 same, ground (arith, inv, le-tally drives n reached.pc i))
    | inr other ↦ ground (arith, inv, add-le-tally drives n reached.pc i j)
  ]

  -- Fewer than 2^62 threads, in fewer than 2^62 steps: the tasks run so far are the oldest of those
  -- put into the queue, in the order in which they were put there.
  pub list_strand_fifo : (rest : List T) × (reached.mem.accepted ≡ reached.mem.executed ++ rest)
  list_strand_fifo = (gather n reached.pc ++ reached.mem.tasks, (run-InOrder n ts few short).1)

  -- Fewer than 2^62 threads, in fewer than 2^62 steps: no task is forgotten. When no thread is in a
  -- call and no `Run` waits in the executor, every task was run, in order, and the counters are 0.
  pub list_strand_no_lost_task :
      ((i : ℕ) → i < n → reached.pc i ≡ outside)
      → reached.mem.submitted ≡ 0
      → (reached.mem.executed ≡ reached.mem.accepted)
        × (reached.mem.scheduled ≡ 0)
        × (reached.mem.size ≡ 0)
        × (reached.mem.refs ≡ 1)
  list_strand_no_lost_task quiet waiting =
      let still = none_left drives refl in
      let empty : reached.mem.tasks ≡ [] = nil_of_length reached.mem.tasks (
        ground (
          arith,
          inv,
          still,
          waiting,
          none_left unsized refl,
          none_left unscheduled refl,
          none_left unpopped refl,
        )) in
      (
        sym (
            (run-InOrder n ts few short).1
            ∙ ap₂ (λ (xs ys : List T). reached.mem.executed ++ (xs ++ ys))
                (gather-none n reached.pc still) empty
            ∙ append-nil reached.mem.executed),
        ground
            (arith, inv, still, waiting, empty, none_left unsized refl, none_left unscheduled refl),
        ground (arith, inv, still, waiting, empty, none_left unsized refl, none_left unpopped refl),
        ground (arith, inv, waiting, none_left holds_ref refl),
      )
    where
      none_left : (w : Pc T → ℕ) → w outside ≡ 0 → tally w n reached.pc ≡ 0
      none_left w zero_outside =
          tally-eq-zero w n reached.pc (λ i lt. ap w (quiet i lt) ∙ zero_outside)

  -- Fewer than 2^62 threads, in fewer than 2^62 steps: while a thread runs the strand, its object
  -- has a reference besides its owner's.
  pub list_strand_kept_alive : (i : ℕ) → i < n → runs (reached.pc i) ≡ true → 2 ≤ reached.mem.refs
  list_strand_kept_alive i lt r = ground (arith, inv, le-tally holds_ref n reached.pc i)
