-- ===== src/Exec/Strand/Safety.antt =====
-- What the strand (tasks/tasks/executors/exe/executors/strand.cpp) over its queue
-- (exe/support/msqueue.hpp) promises in every reachable state. A use of a node behind its deletion is
-- undefined behaviour, so each theorem is about schedules where `fault` is not set.
use concurrency_course_by_li.Base.{
  ℕ, ◌+◌, ◌^◌, ◌<◌, ◌≡◌, sym, ap, ◌∙◌, subst, true, false, List, ◌++◌, arith, length,
}
use concurrency_course_by_li.Threads.{World, run}
use concurrency_course_by_li.Exec.Strand.{outside, Call}
use concurrency_course_by_li.Exec.Strand.Queue.{Impl, At, at, Chance, turn_of, start}
use concurrency_course_by_li.Exec.Strand.Refine.{place}
use concurrency_course_by_li.Exec.Strand.Simulation.{Simulates, run-Simulates}
use concurrency_course_by_li.Exec.Strand.ListSafety.{
  runs, list_strand_serial, list_strand_fifo, list_strand_no_lost_task,
}

module _ {T : Type 0} (n : ℕ) (few : n < 2 ^ 62) (ts : List (ℕ × (Call T × Chance)))
    (short : length ts < 2 ^ 62) where
  abbrev reached : World (Impl T) (At T)
  reached = run turn_of n ts start

  abbrev sim : Simulates n (0 + length ts) reached
  sim = run-Simulates n ts

  short_sim : length sim.turns < 2 ^ 62
  short_sim = omega (arith, sim.few_turns, short)

  -- Fewer than 2^62 threads, in fewer than 2^62 steps in which no deleted node of the queue was used:
  -- tasks of the strand never run at the same time. Two threads that run it are the same, and while
  -- one runs it no further `Run` waits in the executor.
  pub strand_serial :
      (i j : ℕ)
      → i < n
      → j < n
      → reached.mem.queue.fault ≡ false
      → runs (place (reached.pc i)) ≡ true
      → runs (place (reached.pc j)) ≡ true
      → (i ≡ j) × (reached.mem.strand.submitted ≡ 0)
  strand_serial i j hi hj no_fault ri rj =
      let (same, none_waits) =
        list_strand_serial n few sim.turns short_sim i j hi hj (ap runs (sim.same_places i hi) ∙ ri)
          (ap runs (sim.same_places j hj) ∙ rj) in
      (same, sym (ap (λ s. s.submitted) sim.same_strand) ∙ none_waits)

  -- Fewer than 2^62 threads, in fewer than 2^62 steps in which no deleted node of the queue was used:
  -- the tasks run so far are the oldest of those linked into the queue, in the order of their links.
  pub strand_fifo :
      reached.mem.queue.fault ≡ false
      → (rest : List T) × (reached.mem.strand.accepted ≡ reached.mem.strand.executed ++ rest)
  strand_fifo no_fault =
      let (rest, e) = list_strand_fifo n few sim.turns short_sim in
      (
        rest,
        sym (ap (λ s. s.accepted) sim.same_strand)
            ∙ e
            ∙ ap (λ s. s.executed ++ rest) sim.same_strand,
      )

  -- Fewer than 2^62 threads, in fewer than 2^62 steps in which no deleted node of the queue was used:
  -- no task is forgotten. When no thread is in a call and no `Run` waits in the executor, every task
  -- was run, in order, and the counters are 0.
  pub strand_no_lost_task :
      reached.mem.queue.fault ≡ false
      → ((i : ℕ) → i < n → reached.pc i ≡ at outside)
      → reached.mem.strand.submitted ≡ 0
      → (reached.mem.strand.executed ≡ reached.mem.strand.accepted)
        × (reached.mem.strand.scheduled ≡ 0)
        × (reached.mem.strand.size ≡ 0)
        × (reached.mem.strand.refs ≡ 1)
  strand_no_lost_task no_fault quiet none_waits =
      subst (λ s. (s.executed ≡ s.accepted) × (s.scheduled ≡ 0) × (s.size ≡ 0) × (s.refs ≡ 1))
        sim.same_strand
        (list_strand_no_lost_task n few sim.turns short_sim
          (λ i lt. sim.same_places i lt ∙ ap place (quiet i lt))
          (ap (λ s. s.submitted) sim.same_strand ∙ none_waits))
