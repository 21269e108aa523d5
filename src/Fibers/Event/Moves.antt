-- ===== src/Fibers/Event/Moves.antt =====
-- The loop of `Fire` in tasks/fibers/mutex/exe/fibers/sync/event.hpp.
use concurrency_course_by_li.Base.{
  ℕ, ◌<◌, ◌≡◌, inl, inr, Bool, List, [], ◌∷◌, arith, ltb, if◌then◌else◌, ltb→lt, Bool-cases,
}
use concurrency_course_by_li.Threads.{update, tally-update, le-tally, add-le-tally, World, commit}
use concurrency_course_by_li.Fibers.Mutex.{is_empty}
use concurrency_course_by_li.Fibers.Mutex.Invariant.{occurs}
use concurrency_course_by_li.Fibers.Event.{
  Event, Pc, outside, parked, returned, draining, scheduling, take_fiber,
}
use concurrency_course_by_li.Fibers.Event.Invariant.{fires, schedules, Inv}

module _ (n i : ℕ) (lt : i < n) (w : World Event Pc) (h : Inv n w) where
  pub take-Inv :
      (q : List ℕ) → w.pc i ≡ draining → w.mem.wait_q ≡ q → Inv n (commit i w (take_fiber q w.mem))
  unfolding take_fiber occurs
  take-Inv [] e eq =
      absurd (ground (arith, e, eq, lt, h.counts, h.each i, le-tally fires n w.pc i lt))
  take-Inv (k ∷ rest) e eq = record {
    counts = ground (
      arith,
      e,
      eq,
      h.counts,
      h.each i,
      le-tally fires n w.pc i lt,
      tally-update fires n w.pc i (scheduling k (is_empty rest)) lt,
    );
    each = λ j. ground (
      arith,
      e,
      eq,
      h.counts,
      h.each i,
      le-tally fires n w.pc i lt,
      h.each j,
      add-le-tally fires n w.pc i j,
      tally-update (schedules j) n w.pc i (scheduling k (is_empty rest)) lt,
      le-tally (schedules j) n w.pc i lt,
    );
  }

  -- A fiber that is to be scheduled is parked.
  pub target : (k : ℕ) (b : Bool) → w.pc i ≡ scheduling k b → (k < n) × (w.pc k ≡ parked)
  target k b e = elim (Bool-cases (ltb k n)) [
    | inl below ↦
        let lt_k : k < n = ltb→lt _ _ below in
        (lt_k, ground (arith, e, h.each k, lt_k, le-tally (schedules k) n w.pc i lt))
    | inr above ↦ absurd (ground (arith, e, above, h.each k, le-tally (schedules k) n w.pc i lt))
  ]

  pub schedule-Inv :
      (k : ℕ) (b : Bool)
      → w.pc i ≡ scheduling k b
      → (k < n) × (w.pc k ≡ parked)
      → Inv n (
          commit i
            (record w { pc = update w.pc k returned })
            (w.mem, if b then outside else draining))
  schedule-Inv k b e (lt_k, e_k) =
      let f : ℕ → Pc = update w.pc k returned in
      let p : Pc = if b then outside else draining in
      record {
        counts = ground (
          arith,
          e,
          e_k,
          lt,
          h.counts,
          h.each i,
          le-tally fires n w.pc i lt,
          tally-update fires n w.pc k returned lt_k,
          tally-update fires n f i p lt,
        );
        each = λ j. ground (
          arith,
          e,
          e_k,
          lt,
          lt_k,
          h.counts,
          h.each i,
          le-tally fires n w.pc i lt,
          h.each j,
          h.each k,
          add-le-tally fires n w.pc i j,
          tally-update (schedules j) n w.pc k returned lt_k,
          tally-update (schedules j) n f i p lt,
        );
      }
