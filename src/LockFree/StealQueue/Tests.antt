-- ===== src/LockFree/StealQueue/Tests.antt =====
-- Runs of the ring of tasks/lockfree/steal/work_stealing_queue.hpp, at capacity 2.
use concurrency_course_by_li.Base.{
  ℕ, zero, suc, ◌≤◌, ◌≡◌, refl, ◌↔◌, false, List, [], ◌∷◌, ◌++◌, arith, length,
}
use concurrency_course_by_li.Threads.{World, run}
use concurrency_course_by_li.LockFree.StealQueue.{
  Queue, Pc, Call, outside, push_returned, pop_returned, full_test, to_index, call_push, call_pop,
  call_grab, step, init,
}
use concurrency_course_by_li.LockFree.StealQueue.Contents.{contents}
use concurrency_course_by_li.LockFree.StealQueue.Safety.{
  steal_fifo, steal_bounded, steal_grab_exact, steal_pop_exact, steal_pop_empty,
  steal_push_full_iff,
}

abbrev turns : ℕ → Call ℕ → ℕ → List (ℕ × Call ℕ)
turns i c zero = []
turns i c (suc n) = (i, c) ∷ turns i c n

abbrev after : List (ℕ × Call ℕ) → World (Queue ℕ) (Pc ℕ)
after ts = run (step 0 2) 3 ts (init 0 2)

-- Thread 0 pushes 5 and 7.
abbrev two_pushes : List (ℕ × Call ℕ)
two_pushes = turns 0 (call_push 5) 5 ++ turns 0 (call_push 7) 5

-- Threads 1 and 2 both copy; thread 2 takes one value first, and thread 1 goes round again.
abbrev race : List (ℕ × Call ℕ)
race = two_pushes ++ turns 1 (call_grab 2) 6 ++ turns 2 call_pop 5 ++ turns 1 (call_grab 2) 1

race_state :
    ((after race).mem.taken ≡ 5 ∷ [])
    × ((after race).pc 2 ≡ outside (pop_returned 5))
    × ((after (race ++ turns 1 (call_grab 2) 5)).mem.taken ≡ 5 ∷ 7 ∷ [])
unfolding run step to_index
race_state = (refl, refl, refl)

-- The ring goes round: position 3 is slot 0 again.
abbrev around : List (ℕ × Call ℕ)
around = race ++ turns 0 (call_push 8) 5 ++ turns 1 (call_grab 2) 6 ++ turns 0 (call_push 9) 5

around_state : ((after around).mem.buffer 0 ≡ 9) × ((after around).mem.pushed ≡ 5 ∷ 7 ∷ 8 ∷ 9 ∷ [])
unfolding run step to_index
around_state = (refl, refl)

steal_fifo_example :
    (after around).mem.taken ++ contents 2 (after around).mem ≡ (after around).mem.pushed
steal_fifo_example = steal_fifo 0 2 3 around (omega arith)

steal_bounded_example : length (contents 2 (after around).mem) ≤ 2
steal_bounded_example = steal_bounded 0 2 3 around (omega arith)

steal_grab_exact_example :
    (rest : List ℕ) × (contents 2 (after (two_pushes ++ turns 1 (call_grab 2) 6)).mem
      ≡ (5 ∷ 7 ∷ []) ++ rest)
unfolding run step to_index
steal_grab_exact_example =
    steal_grab_exact 0 2 3 (two_pushes ++ turns 1 (call_grab 2) 6) (omega arith) 1 2 0 (5 ∷ 7 ∷ [])
      refl refl

steal_pop_exact_example :
    (rest : List ℕ) × (contents 2 (after (two_pushes ++ turns 1 call_pop 4)).mem ≡ 5 ∷ rest)
unfolding run step to_index
steal_pop_exact_example =
    steal_pop_exact 0 2 3 (two_pushes ++ turns 1 call_pop 4) (omega arith) 1 0 5 refl refl

steal_pop_empty_example :
    contents 2 (after (turns 0 (call_push 5) 5 ++ turns 1 call_pop 7)).mem ≡ []
unfolding run step to_index
steal_pop_empty_example =
    steal_pop_empty 0 2 3 (turns 0 (call_push 5) 5 ++ turns 1 call_pop 7) (omega arith) 1 1 1 refl
      refl

steal_push_full_iff_example :
    let q = (after (two_pushes ++ turns 0 (call_push 9) 1)).mem in
    ((full_test 0 2 9 2 q).1 ≡ outside (push_returned false)) ↔ (length (contents 2 q) ≡ 2)
unfolding run step to_index
steal_push_full_iff_example =
    steal_push_full_iff 0 2 3 (two_pushes ++ turns 0 (call_push 9) 1) (omega arith) 0 2 9 refl
