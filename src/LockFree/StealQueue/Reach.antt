-- ===== src/LockFree/StealQueue/Reach.antt =====
-- Every step of tasks/lockfree/steal/work_stealing_queue.hpp keeps the invariant, and so it holds in
-- every reachable state.
use concurrency_course_by_li.Base.{
  ℕ, suc, ◌+◌, ◌≤◌, ◌<◌, ◌≡◌, refl, subst, inl, inr, List, arith, ◌==◌, ==_iff, Bool-cases, length,
}
use concurrency_course_by_li.Threads.{run_inv_timed, World, run}
use concurrency_course_by_li.LockFree.StealQueue.{
  Queue, Pc, Call, outside, push_full, push_load, push_slot, push_tail, pop_check, pop_check_tail,
  pop_read, pop_cas, grab_count, grab_count_head, grab_copy, grab_cas, call_push, call_pop,
  call_grab, to_index, act, step, init,
}
use concurrency_course_by_li.LockFree.StealQueue.Window.{window}
use concurrency_course_by_li.LockFree.StealQueue.Invariant.{Shared, Local, Kept-Local}
use concurrency_course_by_li.LockFree.StealQueue.Moves.{
  After, limit, later, read-After, full-After, slot-After, tail-After,
}
use concurrency_course_by_li.LockFree.StealQueue.Takes.{
  empty-After, pop-After, size-After, round-After, grab-After,
}

module _ {T : Type 0} (null : T) (c : ℕ) where
  act-After :
      (k i : ℕ) (a : Call T) (q : Queue T) (p : Pc T)
      → k < limit
      → Shared c k q
      → Local c i q p
      → After null c k i q (act null c i a q p)
  unfolding act Local
  act-After k i (call_push v) q (outside r) early s l = elim (Bool-cases (i == 0)) [
    | inl own ↦ rw own (read-After null c k i q (push_full v q.tail) s ((==_iff _ _).0 own, refl))
    | inr foreign ↦ rw foreign (read-After null c k i q (outside r) s tt)
  ]
  act-After k i call_pop q (outside r) early s l =
      read-After null c k i q (pop_check q.head) s (omega arith)
  act-After k i (call_grab room) q (outside r) early s l =
      read-After null c k i q (grab_count room q.head) s (omega arith)
  act-After k i a q (push_full v t) early s (z, e) = full-After null c k i q v t early s z e
  act-After k i a q (push_load v) early s (z, lt) =
      read-After null c k i q (push_slot v q.tail) s (z, refl, lt)
  act-After k i a q (push_slot v t) early s (z, e, lt) = slot-After null c k i q v t s z e lt
  act-After k i a q (push_tail v t) early s (z, e, lt, h) =
      tail-After null c k i q v t early s z e lt h
  act-After k i a q (pop_check current) early s l =
      read-After null c k i q (pop_check_tail current q.head) s (l, omega arith)
  act-After k i a q (pop_check_tail current h) early s (l, m) =
      empty-After null c k i q current h s l m
  act-After k i a q (pop_read current) early s (l, f) =
      read-After null c k i q (pop_cas current (q.buffer (to_index c current))) s
        (l, λ now. (f now, refl))
  act-After k i a q (pop_cas current v) early s l = pop-After null c k i q current v early s l
  act-After k i a q (grab_count room current) early s l =
      read-After null c k i q (grab_count_head room current q.tail) s
        (l, omega (arith, s.order), omega arith)
  act-After k i a q (grab_count_head room current t) early s (l, m, o) =
      size-After null c k i q room current t early s l m o
  act-After k i a q (grab_copy room current out left) early s l =
      round-After null c k i q room current out left early s l
  act-After k i a q (grab_cas room current out) early s l =
      grab-After null c k i q room current out early s l

  -- The invariant after `k` turns.
  abbrev pub Inv : ℕ → World (Queue T) (Pc T) → Type 0
  Inv k w = Shared c k w.mem × ((j : ℕ) → Local c j w.mem (w.pc j))

  step-Inv :
      (k i : ℕ) (a : Call T) (w : World (Queue T) (Pc T))
      → k < limit
      → Inv k w
      → Inv (suc k) (step null c i a w)
  unfolding step
  step-Inv k i a w early (s, l) =
      let (s', l', kept) : After null c k i w.mem (act null c i a w.mem (w.pc i)) =
        act-After k i a w.mem (w.pc i) early s (l i) in
      (
        s',
        λ j. elim (Bool-cases (i == j)) [
          | inl own ↦ rw own (
              subst
                (λ m.
                  Local {T = T} c m (act null c i a w.mem (w.pc i)).0
                    (act null c i a w.mem (w.pc i)).1)
                ((==_iff i j).0 own) l')
          | inr other ↦
              rw other
                (Kept-Local c j w.mem _ (w.pc j) (kept j (λ e. ground (arith, other, e))) (l j))
        ],
      )

  wait-Inv : (k : ℕ) (w : World (Queue T) (Pc T)) → Inv k w → Inv (suc k) w
  wait-Inv k w (s, l) = (later null c k w.mem s, l)

  init-Inv : Inv 0 (init null c)
  unfolding Local window
  init-Inv = (
    record { order = omega arith; room = omega arith; early = omega arith; content = refl },
    λ j. tt,
  )

  pub run-Inv :
      (n : ℕ) (ts : List (ℕ × Call T))
      → length ts ≤ limit
      → Inv (length ts) (run (step null c) n ts (init null c))
  run-Inv n ts short =
      let e : 0 + length ts ≡ length ts = omega arith in
      subst (λ k. Inv k (run (step null c) n ts (init null c))) e
        (run_inv_timed (step null c) n Inv limit
          (λ k i a w early on inv. step-Inv k i a w early inv) wait-Inv ts 0 (init null c)
          (omega arith) init-Inv)
