-- ===== src/Exec/Strand/Tests.antt =====
-- The strand (tasks/tasks/executors/exe/executors/strand.cpp) over its queue at work, and its theorems
-- there.
use concurrency_course_by_li.Base.{
  ℕ, zero, suc, ◌<◌, ◌≡◌, refl, true, false, List, [], ◌∷◌, ◌++◌, arith,
}
use concurrency_course_by_li.Threads.{World, turn, run}
use concurrency_course_by_li.Exec.Strand.{outside, run_tasks, Call, call_submit, call_run}
use concurrency_course_by_li.Exec.Strand.Queue.{Impl, At, at, Chance, turn_of, start}
use concurrency_course_by_li.Exec.Strand.Safety.{strand_serial, strand_fifo, strand_no_lost_task}

-- Compare-exchanges fail only where they must, and the unassigned variable holds no node.
abbrev chance : Chance
chance = record { spurious = false; unassigned = 1000 }

-- `k` turns of thread `i`.
abbrev turns : ℕ → Call ℕ → ℕ → List (ℕ × (Call ℕ × Chance))
turns i c zero = []
turns i c (suc k) = (i, (c, chance)) ∷ turns i c k

abbrev first : World (Impl ℕ) (At ℕ)
first = start

-- Thread 0 submits task 7 and the strand; thread 1 has put task 8 and not yet counted it in `scheduled_`
-- when thread 2 runs both.
abbrev early : List (ℕ × (Call ℕ × Chance))
early = turns 0 (call_submit 7) 9 ++ turns 1 (call_submit 8) 9 ++ turns 2 call_run 14

early_state :
    let w = run turn_of 3 early first in
    (w.pc 2 ≡ at (run_tasks (8 ∷ []) 1)) × (w.mem.strand.executed ≡ 7 ∷ [])
unfolding run turn turn_of
early_state = (refl, refl)

abbrev all_done : List (ℕ × (Call ℕ × Chance))
all_done = early ++ turns 2 call_run 4 ++ turns 1 call_run 1

all_done_quiet : (i : ℕ) → i < 3 → (run turn_of 3 all_done first).pc i ≡ at outside
unfolding run turn turn_of
all_done_quiet zero lt = refl
all_done_quiet (suc zero) lt = refl
all_done_quiet (suc (suc zero)) lt = refl
all_done_quiet (suc (suc (suc i))) lt = absurd (omega arith)

strand_no_lost_task_example :
    let s = (run turn_of 3 all_done first).mem.strand in
    (s.executed ≡ s.accepted) × (s.scheduled ≡ 0) × (s.size ≡ 0) × (s.refs ≡ 1)
unfolding run turn turn_of
strand_no_lost_task_example =
    strand_no_lost_task 3 (omega arith) all_done (omega arith) refl all_done_quiet refl

strand_serial_example : ◌≡◌ {A = ℕ} 2 2 × ((run turn_of 3 early first).mem.strand.submitted ≡ 0)
unfolding run turn turn_of
strand_serial_example =
    strand_serial 3 (omega arith) early (omega arith) 2 2 (omega arith) (omega arith) refl refl refl

strand_fifo_example :
    let s = (run turn_of 3 early first).mem.strand in
    (rest : List ℕ) × (s.accepted ≡ s.executed ++ rest)
unfolding run turn turn_of
strand_fifo_example = strand_fifo 3 (omega arith) early (omega arith) refl

-- Thread 1 has loaded `tail_` in `Put`. Thread 0 submits ten tasks, thread 2 takes them, and the node
-- that thread 1 looks at then was deleted.
abbrev stalled : List (ℕ × (Call ℕ × Chance))
stalled = turns 1 (call_submit 9) 2 ++ turns 0 (call_submit 7) 99 ++ turns 2 call_run 61

stalled_put_uses_deleted :
    ((run turn_of 3 stalled first).mem.queue.fault ≡ false)
    × ((run turn_of 3 (stalled ++ turns 1 call_run 1) first).mem.queue.fault ≡ true)
unfolding run turn turn_of
stalled_put_uses_deleted = (refl, refl)
