-- ===== src/Fibers/Mutex/Reach.antt =====
-- Every step of tasks/fibers/mutex/exe/fibers/sync/mutex.hpp keeps the invariant.
use concurrency_course_by_li.Base.{ℕ, ◌+◌, ◌<◌, ◌≡◌, refl, Bool, List, [], arith}
use concurrency_course_by_li.Threads.{
  tally, tally-update, le-tally, add-le-tally, tally-eq-zero, World, run, run_inv,
}
use concurrency_course_by_li.Fibers.Mutex.{
  Mutex, Pc, outside, unlocking, scheduling, crashed, try_lock, enqueue, try_unlock, act, schedule,
  step, init,
}
use concurrency_course_by_li.Fibers.Mutex.Invariant.{
  Inv, owns, schedules, occurs, occurs-append, is_empty-append,
}
use concurrency_course_by_li.Fibers.Mutex.Moves.{take-Inv, target, schedule-Inv}

module _ (n i : ℕ) (lt : i < n) (c : Bool) (w : World Mutex Pc) (h : Inv n w) where
  step-Inv : (p : Pc) → w.pc i ≡ p → Inv n (step i c w)
  unfolding step act schedule try_lock enqueue try_unlock occurs
  step-Inv unlocking e = rw e (take-Inv n i lt w h w.mem.park_q e refl)
  step-Inv (scheduling k) e = rw e (schedule-Inv n i lt w h k e (target n i lt w h k e))
  step-Inv crashed e = absurd (ground (arith, e, h.each i, lt))
  step-Inv p e = record {
    owned = ground (
      arith,
      e,
      h.owned,
      h.waiters,
      h.status,
      h.each i,
      le-tally owns n w.pc i lt,
      tally-update owns n w.pc i (act i w.mem (w.pc i)).1 lt,
    );
    waiters = ground (
      arith,
      e,
      h.owned,
      h.waiters,
      h.status,
      h.each i,
      le-tally owns n w.pc i lt,
      is_empty-append w.mem.park_q i,
    );
    status = ground (arith, e, h.owned, h.waiters, h.status, h.each i, le-tally owns n w.pc i lt);
    each = λ j. ground (
      arith,
      e,
      h.owned,
      h.waiters,
      h.status,
      h.each i,
      le-tally owns n w.pc i lt,
      h.each j,
      add-le-tally owns n w.pc i j,
      tally-update (schedules j) n w.pc i (act i w.mem (w.pc i)).1 lt,
      le-tally (schedules j) n w.pc i lt,
      occurs-append j w.mem.park_q i,
    );
  }

no_one : (n j : ℕ) → occurs j [] + tally (schedules j) n (λ _. outside) ≡ 0
unfolding occurs
no_one n j = omega (arith, tally-eq-zero (schedules j) n (λ _. outside) (λ i lt. refl))

-- What holds after every schedule.
pub run-Inv : (n : ℕ) (ts : List (ℕ × Bool)) → Inv n (run step n ts init)
run-Inv n ts =
    run_inv step n (Inv n) (λ i c w lt h. step-Inv n i lt c w h _ refl) ts init
      (record {
        owned = tally-eq-zero owns n (λ _. outside) (λ i lt. refl);
        waiters = refl;
        status = omega arith;
        each = λ j. record {
          handed = λ _. omega arith;
          waiting = λ _. no_one n j;
          members = λ _. no_one n j;
        };
      })
