-- ===== src/LockFree/SplitStack/Tests.antt =====
-- Runs of tasks/lockfree/stack/lock_free_stack.hpp.
use concurrency_course_by_li.Base.{
  ℕ, zero, suc, ◌+◌, ◌<◌, ◌≡◌, refl, Bool, true, false, some, List, [], ◌∷◌, ◌++◌, map, arith,
  if◌then◌else◌,
}
use concurrency_course_by_li.Threads.{tally, World, turn, run}
use concurrency_course_by_li.LockFree.SplitStack.{
  Stack, pushed, popped, Pc, outside, returned, Call, call_push, call_pop, same_ptr, new_node,
  use_node, set_next, push_exchange, raise_stamp, pop_exchange, add_inner, destroy, step, init,
}
use concurrency_course_by_li.LockFree.SplitStack.Chain.{replay, add_event}
use concurrency_course_by_li.LockFree.SplitStack.Balance.{refs, pushes}
use concurrency_course_by_li.LockFree.SplitStack.Safety.{
  answers, stack_no_use_after_delete, stack_lifo, stack_destroy_deletes_all,
}

abbrev turns : ℕ → Call → ℕ → List (ℕ × (Call × Bool))
turns i c zero = []
turns i c (suc k) = (i, (c, false)) ∷ turns i c k

-- Thread 1 pops the node at address 8 while thread 0 has a reference to it; thread 0 deletes it, and
-- stands behind its exchange for the node at address 7.
abbrev both_pop : List (ℕ × (Call × Bool))
both_pop =
    turns 0 (call_push 5 7) 3
    ++ turns 1 (call_push 6 8) 3
    ++ turns 0 call_pop 2
    ++ turns 1 call_pop 4
    ++ turns 0 call_pop 4

abbrev w : World Stack Pc
w = run step 2 both_pop init

both_pop_history : w.mem.history ≡ popped 5 ∷ popped 6 ∷ pushed 6 ∷ pushed 5 ∷ []
unfolding run turn step new_node use_node set_next push_exchange raise_stamp pop_exchange add_inner
    same_ptr
both_pop_history = refl

both_pop_alive : map w.mem.alive (7 ∷ 8 ∷ []) ≡ true ∷ false ∷ []
unfolding run turn step new_node use_node set_next push_exchange raise_stamp pop_exchange add_inner
    same_ptr
both_pop_alive = refl

both_pop_answer : (step 0 (call_pop, false) w).pc 0 ≡ returned (some 5)
unfolding run turn step new_node use_node set_next push_exchange raise_stamp pop_exchange add_inner
    same_ptr
both_pop_answer = refl

stack_no_use_after_delete_example :
    (w.mem.fault ≡ false)
    × ((if w.mem.alive 8 then 0 else tally (refs 8) 2 w.pc + tally (pushes 8) 2 w.pc) ≡ 0)
stack_no_use_after_delete_example = stack_no_use_after_delete 2 both_pop (omega arith) 8

stack_lifo_example :
    (l : List ℕ) × (replay w.mem.history ≡ some l)
    × (answers (w.pc 0) ((step 0 (call_pop, false) w).pc 0) l ≡ true)
stack_lifo_example = stack_lifo 2 both_pop (omega arith) 0 call_pop false (omega arith)

-- Both return, and thread 1 pushes two values, one at the address that was in use before.
abbrev pushed_again : List (ℕ × (Call × Bool))
pushed_again =
    both_pop
    ++ turns 0 call_pop 2
    ++ turns 1 call_pop 1
    ++ turns 1 (call_push 9 8) 3
    ++ turns 1 (call_push 4 3) 3

abbrev end : World Stack Pc
end = run step 2 pushed_again init

pushed_again_quiet : (i : ℕ) → i < 2 → end.pc i ≡ outside
unfolding run turn step new_node use_node set_next push_exchange raise_stamp pop_exchange add_inner
    same_ptr
pushed_again_quiet zero lt = refl
pushed_again_quiet (suc zero) lt = refl
pushed_again_quiet (suc (suc i)) lt = absurd (omega arith)

pushed_again_values : replay end.mem.history ≡ some (4 ∷ 9 ∷ [])
unfolding run turn step new_node use_node set_next push_exchange raise_stamp pop_exchange add_inner
    same_ptr replay add_event
pushed_again_values = refl

stack_destroy_deletes_all_example :
    ((destroy 2 end.mem.head_ptr end.mem).alive 8 ≡ false)
    × ((destroy 2 end.mem.head_ptr end.mem).fault ≡ false)
stack_destroy_deletes_all_example =
    stack_destroy_deletes_all 2 pushed_again (omega arith) (4 ∷ 9 ∷ []) 2 8 pushed_again_quiet
      pushed_again_values (omega arith)
