-- ===== src/Cond/BoundedQueue/Order.antt =====
-- The bounded queue (tasks/cond/semaphore/queue.hpp) keeps the order of its values.
use concurrency_course_by_li.Base.{
  ℕ, ◌<◌, ◌≡◌, refl, inl, inr, List, ◌++◌, arith, ◌==◌, Bool-cases, size_mod,
}
use concurrency_course_by_li.Threads.{add-le-tally, World, run, run_inv}
use concurrency_course_by_li.Cond.BoundedQueue.{Queue, Pc, Call, act, step, init}
use concurrency_course_by_li.Cond.BoundedQueue.Invariant.{Inv, in_mutex, step-Inv, init-Inv}
use concurrency_course_by_li.Cond.BoundedQueue.Seen.{Sees, InOrder, blind, act-Steps, wake-Sees}

module _ {T : Type 0} (n capacity : ℕ) where
  record State (w : World (Queue T) (Pc T)) : Type 0 where
    inv : Inv n capacity w.mem w.pc
    order : InOrder w.mem
    sees : (i : ℕ) → i < n → Sees w.mem (w.pc i)

  step-State :
      (i : ℕ) (c : Call T) (w : World (Queue T) (Pc T)) → i < n → State w → State (step i c w)
  unfolding step
  step-State i c w lt h =
      let r = act c w.mem (w.pc i) in
      let s = act-Steps c w.mem (w.pc i) h.order (h.sees i lt) in
      record {
        inv = step-Inv n capacity i c w lt (h.sees i lt).back h.inv;
        order = s.order;
        sees = λ j lt_j. elim (Bool-cases (i == j)) [
          | inl eq ↦ rw eq s.own
          | inr ne ↦ rw ne (
              wake-Sees w.mem r.0 r.2 (w.pc j)
                (λ e.
                  s.others (ground (arith, e, ne, h.inv.mutex, add-le-tally in_mutex n w.pc i j)))
                (h.sees j lt_j))
        ];
      }

  run-State : capacity < size_mod → (ts : List (ℕ × Call T)) → State (run step n ts (init capacity))
  run-State small ts =
      run_inv step n State step-State ts _ (record {
        inv = init-Inv n capacity small;
        order = refl;
        sees = λ i lt. blind _ _ refl refl;
      })

  pub run-Inv :
      capacity < size_mod
      → (ts : List (ℕ × Call T))
      → let w = run step n ts (init capacity) in Inv n capacity w.mem w.pc
  run-Inv small ts = (run-State small ts).inv

  -- With a capacity that fits `size_t`, after every schedule, the values that calls of `Take` have read
  -- and removed so far and then the values in the buffer are the values pushed so far, in the order
  -- in which they were pushed.
  pub queue_fifo :
      capacity < size_mod
      → (ts : List (ℕ × Call T))
      → let q = (run step n ts (init capacity)).mem in q.accepted ≡ q.taken ++ q.buffer
  queue_fifo small ts = (run-State small ts).order
