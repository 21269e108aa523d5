-- ===== src/Fibers/Mutex/Moves.antt =====
-- The critical section of `UnlockAwaiter` and `Schedule` in
-- tasks/fibers/mutex/exe/fibers/sync/mutex.hpp.
use concurrency_course_by_li.Base.{
  ℕ, ◌<◌, ◌≡◌, inl, inr, List, [], ◌∷◌, arith, ltb, ltb→lt, Bool-cases,
}
use concurrency_course_by_li.Threads.{update, tally-update, le-tally, add-le-tally, World, commit}
use concurrency_course_by_li.Fibers.Mutex.{
  Mutex, Pc, outside, parked, inside, unlocking, scheduling, take_fiber,
}
use concurrency_course_by_li.Fibers.Mutex.Invariant.{Inv, owns, schedules, occurs}

module _ (n i : ℕ) (lt : i < n) (w : World Mutex Pc) (h : Inv n w) where
  pub take-Inv :
      (q : List ℕ) → w.pc i ≡ unlocking → w.mem.park_q ≡ q → Inv n (commit i w (take_fiber q w.mem))
  unfolding take_fiber occurs
  take-Inv [] e eq =
      absurd
        (ground (arith, e, eq, h.owned, h.waiters, h.status, h.each i, le-tally owns n w.pc i lt))
  take-Inv (k ∷ rest) e eq = record {
    owned = ground (
      arith,
      e,
      eq,
      h.owned,
      h.waiters,
      h.status,
      h.each i,
      le-tally owns n w.pc i lt,
      tally-update owns n w.pc i (scheduling k) lt,
    );
    waiters =
        ground (arith, e, eq, h.owned, h.waiters, h.status, h.each i, le-tally owns n w.pc i lt);
    status =
        ground (arith, e, eq, h.owned, h.waiters, h.status, h.each i, le-tally owns n w.pc i lt);
    each = λ j. ground (
      arith,
      e,
      eq,
      h.owned,
      h.waiters,
      h.status,
      h.each i,
      le-tally owns n w.pc i lt,
      h.each j,
      add-le-tally owns n w.pc i j,
      tally-update (schedules j) n w.pc i (scheduling k) lt,
      le-tally (schedules j) n w.pc i lt,
    );
  }

  -- A fiber that is to be scheduled is parked.
  pub target : (k : ℕ) → w.pc i ≡ scheduling k → (k < n) × (w.pc k ≡ parked)
  target k e = elim (Bool-cases (ltb k n)) [
    | inl below ↦
        let lt_k : k < n = ltb→lt _ _ below in
        (lt_k, ground (arith, e, h.each k, lt_k, le-tally (schedules k) n w.pc i lt))
    | inr above ↦ absurd (ground (arith, e, above, h.each k, le-tally (schedules k) n w.pc i lt))
  ]

  pub schedule-Inv :
      (k : ℕ)
      → w.pc i ≡ scheduling k
      → (k < n) × (w.pc k ≡ parked)
      → Inv n (commit i (record w { pc = update w.pc k inside }) (w.mem, outside))
  schedule-Inv k e (lt_k, e_k) =
      let f : ℕ → Pc = update w.pc k inside in
      record {
        owned = ground (
          arith,
          e,
          e_k,
          h.owned,
          tally-update owns n w.pc k inside lt_k,
          tally-update owns n f i outside lt,
        );
        waiters = h.waiters;
        status = h.status;
        each = λ j. ground (
          arith,
          e,
          e_k,
          lt_k,
          h.each j,
          h.each k,
          tally-update (schedules j) n w.pc k inside lt_k,
          tally-update (schedules j) n f i outside lt,
        );
      }
