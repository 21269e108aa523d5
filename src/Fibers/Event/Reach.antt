-- ===== src/Fibers/Event/Reach.antt =====
-- Every step of tasks/fibers/mutex/exe/fibers/sync/event.hpp keeps the invariant.
use concurrency_course_by_li.Base.{ℕ, ◌+◌, ◌<◌, ◌≡◌, refl, List, [], arith}
use concurrency_course_by_li.Threads.{
  tally, tally-update, le-tally, add-le-tally, tally-eq-zero, World, run, run_inv,
}
use concurrency_course_by_li.Fibers.Mutex.Invariant.{occurs, occurs-append, is_empty-append}
use concurrency_course_by_li.Fibers.Event.{
  Event, Pc, Call, outside, draining, scheduling, crashed, await_suspend, fire, act, schedule, step,
  init,
}
use concurrency_course_by_li.Fibers.Event.Invariant.{fires, schedules, Inv}
use concurrency_course_by_li.Fibers.Event.Moves.{take-Inv, target, schedule-Inv}

module _ (n i : ℕ) (lt : i < n) (c : Call) (w : World Event Pc) (h : Inv n w) where
  step-Inv : (p : Pc) → w.pc i ≡ p → Inv n (step i c w)
  unfolding step act schedule await_suspend fire
  step-Inv draining e = rw e (take-Inv n i lt w h w.mem.wait_q e refl)
  step-Inv (scheduling k b) e = rw e (schedule-Inv n i lt w h k b e (target n i lt w h k b e))
  step-Inv crashed e = absurd (ground (arith, e, h.each i, lt))
  step-Inv p e = record {
    counts = ground (
      arith,
      e,
      lt,
      h.counts,
      h.each i,
      le-tally fires n w.pc i lt,
      tally-update fires n w.pc i (act i c w.mem (w.pc i)).1 lt,
    );
    each = λ j. ground (
      arith,
      e,
      lt,
      h.counts,
      h.each i,
      le-tally fires n w.pc i lt,
      h.each j,
      add-le-tally fires n w.pc i j,
      tally-update (schedules j) n w.pc i (act i c w.mem (w.pc i)).1 lt,
      le-tally (schedules j) n w.pc i lt,
      occurs-append j w.mem.wait_q i,
      is_empty-append w.mem.wait_q i,
    );
  }

no_one : (n j : ℕ) → occurs j [] + tally (schedules j) n (λ _. outside) ≡ 0
unfolding occurs
no_one n j = omega (arith, tally-eq-zero (schedules j) n (λ _. outside) (λ i lt. refl))

-- What holds after every schedule.
pub run-Inv : (n : ℕ) (ts : List (ℕ × Call)) → Inv n (run step n ts init)
run-Inv n ts =
    let none_fires = tally-eq-zero fires n (λ _. outside) (λ i lt. refl) in
    run_inv step n (Inv n) (λ i c w lt h. step-Inv n i lt c w h _ refl) ts init
      (record {
        counts = record {
          uncalled = λ _. (none_fires, refl);
          one = omega (arith, none_fires);
          over = λ _ _. refl;
        };
        each =
            λ j. record { known = λ _. refl; waits = λ _. no_one n j; members = λ _. no_one n j };
      })
