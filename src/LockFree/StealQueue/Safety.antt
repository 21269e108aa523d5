-- ===== src/LockFree/StealQueue/Safety.antt =====
-- What every schedule of tasks/lockfree/steal/work_stealing_queue.hpp guarantees.
use concurrency_course_by_li.Base.{
  ℕ, ◌-◌, ◌≤◌, ◌≡◌, subst, ◌↔◌, false, List, [], ◌∷◌, ◌++◌, arith, length,
}
use concurrency_course_by_li.Threads.{World, run}
use concurrency_course_by_li.LockFree.StealQueue.{
  Queue, Pc, Call, outside, push_returned, full_test, push_full, pop_check_tail, pop_cas, grab_cas,
  step, init,
}
use concurrency_course_by_li.LockFree.StealQueue.Window.{length-window}
use concurrency_course_by_li.LockFree.StealQueue.Invariant.{Local}
use concurrency_course_by_li.LockFree.StealQueue.Moves.{limit}
use concurrency_course_by_li.LockFree.StealQueue.Reach.{run-Inv}
use concurrency_course_by_li.LockFree.StealQueue.Contents.{
  contents, grab-front, pop-front, empty-contents, full_test_iff,
}

module _ {T : Type 0} (null : T) (c n : ℕ) (ts : List (ℕ × Call T))
    (short : length ts ≤ limit) where
  abbrev reached : World (Queue T) (Pc T)
  reached = run (step null c) n ts (init null c)

  -- In at most 2^62 steps: the values taken out so far and then the values in the ring are the
  -- values pushed so far, in the order in which they were pushed.
  pub steal_fifo : reached.mem.taken ++ contents c reached.mem ≡ reached.mem.pushed
  steal_fifo = (run-Inv null c n ts short).0.content

  -- In at most 2^62 steps: the ring never holds more than its capacity.
  pub steal_bounded : length (contents c reached.mem) ≤ c
  steal_bounded =
      let s = (run-Inv null c n ts short).0 in
      omega (
        arith,
        s.room,
        s.order,
        length-window c reached.mem.buffer reached.mem.head (reached.mem.tail - reached.mem.head),
      )

  -- In at most 2^62 steps: a thread whose compare-exchange in `Grab` is about to succeed has copied
  -- the oldest values of the ring, which are still there.
  pub steal_grab_exact :
      (i room current : ℕ) (out : List T)
      → reached.pc i ≡ grab_cas room current out
      → reached.mem.head ≡ current
      → (rest : List T) × (contents c reached.mem ≡ out ++ rest)
  steal_grab_exact i room current out here now =
      let inv = run-Inv null c n ts short in
      grab-front null c i room current out reached.mem
        (subst (λ p. Local c i reached.mem p) here (inv.1 i)) now

  -- In at most 2^62 steps: a thread whose compare-exchange in `TryPop` is about to succeed has read
  -- the oldest value of the ring, which is still there.
  pub steal_pop_exact :
      (i current : ℕ) (v : T)
      → reached.pc i ≡ pop_cas current v
      → reached.mem.head ≡ current
      → (rest : List T) × (contents c reached.mem ≡ v ∷ rest)
  steal_pop_exact i current v here now =
      let inv = run-Inv null c n ts short in
      pop-front null c i current v reached.mem (subst (λ p. Local c i reached.mem p) here (inv.1 i))
        now

  -- In at most 2^62 steps: where `TryPop` is about to return the null pointer, the ring is empty.
  pub steal_pop_empty :
      (i current h : ℕ)
      → reached.pc i ≡ pop_check_tail current h
      → h ≡ reached.mem.tail
      → contents c reached.mem ≡ []
  steal_pop_empty i current h here now =
      let inv = run-Inv null c n ts short in
      empty-contents null c (length ts) i current h reached.mem inv.0
        (subst (λ p. Local c i reached.mem p) here (inv.1 i)) now

  -- In at most 2^62 steps: `TryPush` refuses a value exactly when the ring is at its capacity at the
  -- moment of the test.
  pub steal_push_full_iff :
      (i t : ℕ) (v : T)
      → reached.pc i ≡ push_full v t
      → ((full_test null c v t reached.mem).1 ≡ outside (push_returned false))
        ↔ (length (contents c reached.mem) ≡ c)
  steal_push_full_iff i t v here =
      let inv = run-Inv null c n ts short in
      full_test_iff null c (length ts) i t v reached.mem short inv.0
        (subst (λ p. Local c i reached.mem p) here (inv.1 i))
