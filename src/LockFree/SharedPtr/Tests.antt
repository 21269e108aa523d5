-- ===== src/LockFree/SharedPtr/Tests.antt =====
-- Runs of tasks/lockfree/shared_ptr/shared_ptr.hpp.
use concurrency_course_by_li.Base.{
  ℕ, zero, suc, ◌<◌, ◌≡◌, refl, ◌↔◌, Bool, true, false, List, [], ◌∷◌, ◌++◌, map, arith,
}
use concurrency_course_by_li.Threads.{World, turn, run}
use concurrency_course_by_li.LockFree.SharedPtr.{
  Heap, Thread, idle, Call, call_make, call_reset_mine, call_reset_expected, call_load, call_store,
  call_cas, step, init, acquire_ref, set_cell, same_ptr, add32,
}
use concurrency_course_by_li.LockFree.SharedPtr.Balance.{times}
use concurrency_course_by_li.LockFree.SharedPtr.Lifetime.{
  references, variables, shared_no_use_after_delete, shared_quiet_counts,
}

-- Turns of thread `i` that make the call `c` and bring it to its end.
abbrev turns : ℕ → Call → ℕ → List (ℕ × (Call × Bool))
turns i c zero = []
turns i c (suc k) = (i, (c, false)) ∷ turns i c k

-- Thread 0 stores a pointer; thread 1 loads it, makes another one and swaps it in, while thread 0
-- stands in the middle of a `Load`.
abbrev swapped : List (ℕ × (Call × Bool))
swapped =
    turns 0 call_make 2
    ++ turns 0 call_store 7
    ++ turns 1 call_load 7
    ++ turns 1 call_make 2
    ++ turns 0 call_load 2
    ++ turns 1 call_cas 6

abbrev after_swap : World Heap Thread
after_swap = run step 2 swapped init

-- The block in the cell and in `mine` of thread 1, and the one that thread 1 took out.
swap_strong : map after_swap.mem.strong (0 ∷ 1 ∷ []) ≡ 2 ∷ 2 ∷ []
unfolding run turn step acquire_ref set_cell same_ptr
swap_strong = refl

-- Thread 0 has a transient reference.
swap_transient : map after_swap.mem.transient (0 ∷ 1 ∷ []) ≡ 1 ∷ 0 ∷ []
unfolding run turn step acquire_ref set_cell same_ptr
swap_transient = refl

shared_no_use_after_delete_example :
    (after_swap.mem.fault ≡ false) × (after_swap.mem.alive 0 ≡ true ↔ 0 < references 2 0 after_swap)
shared_no_use_after_delete_example = shared_no_use_after_delete 2 swapped (omega arith) 0

-- Thread 0 goes on and loads the pointer that was swapped out meanwhile; then all references to it are
-- reset.
abbrev finished : List (ℕ × (Call × Bool))
finished =
    swapped
    ++ turns 0 call_load 5
    ++ turns 0 call_reset_mine 1
    ++ turns 0 call_reset_expected 1
    ++ turns 1 call_reset_expected 1

abbrev after_reset : World Heap Thread
after_reset = run step 2 finished init

reset_alive : map after_reset.mem.alive (0 ∷ 1 ∷ []) ≡ false ∷ true ∷ []
unfolding run turn step acquire_ref set_cell same_ptr
reset_alive = refl

all_idle : (i : ℕ) → i < 2 → (after_reset.pc i).pc ≡ idle
unfolding run turn step acquire_ref set_cell same_ptr
all_idle zero lt = refl
all_idle (suc zero) lt = refl
all_idle (suc (suc i)) lt = absurd (omega arith)

shared_quiet_counts_example :
    (after_reset.mem.strong 1 ≡ variables 2 1 after_reset)
    × (add32 (after_reset.mem.transient 1) (times after_reset.mem.stamp 1 after_reset.mem.raw_ptr)
        ≡ 0)
    × (after_reset.mem.alive 1 ≡ true ↔ 0 < variables 2 1 after_reset)
shared_quiet_counts_example = shared_quiet_counts 2 finished (omega arith) 1 all_idle
