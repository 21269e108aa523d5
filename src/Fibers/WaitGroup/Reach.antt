-- ===== src/Fibers/WaitGroup/Reach.antt =====
-- Every step of tasks/fibers/mutex/exe/fibers/sync/wait_group.hpp keeps the invariant.
use concurrency_course_by_li.Base.{
  ℕ, ◌+◌, ◌^◌, ◌<◌, ◌≡◌, refl, inl, inr, Bool, true, false, List, [], ◌∷◌, arith, ltb,
  if◌then◌else◌, ltb→lt, Bool-cases,
}
use concurrency_course_by_li.Threads.{
  update, tally, tally-update, le-tally, add-le-tally, tally-eq-zero, World, commit, run, run_inv,
}
use concurrency_course_by_li.Fibers.Mutex.Invariant.{occurs, occurs-append, is_empty-append}
use concurrency_course_by_li.Fibers.WaitGroup.{
  add_calls, WaitGroup, Pc, outside, enqueuing, parked, leaving, taking, looking, scheduling,
  crashed, Call, call_wait, count_wait, uncount_wait, count_down, try_enqueue, take_fiber,
  complete_last, act, schedule, step, init,
}
use concurrency_course_by_li.Fibers.WaitGroup.Invariant.{completes, schedules, Inv}

-- A step that neither takes a fiber nor schedules one.
abbrev plain : Pc → Bool
plain taking = false
plain (scheduling _ _) = false
plain crashed = false
plain _ = true

module _ (n i : ℕ) (lt : i < n) (w : World WaitGroup Pc) (h : Inv n w) where
  plain-Inv :
      (c : Call) (p : Pc) → w.pc i ≡ p → plain p ≡ true → Inv n (commit i w (act i c w.mem p))
  unfolding act count_wait uncount_wait count_down try_enqueue complete_last
  plain-Inv c taking e pl = absurd (ground (arith, pl))
  plain-Inv c (scheduling k b) e pl = absurd (ground (arith, pl))
  plain-Inv c crashed e pl = absurd (ground (arith, pl))
  plain-Inv call_wait outside e pl = record {
    counts = ground (arith, e, h.counts, tally-update completes n w.pc i enqueuing lt);
    each = λ j.
        ground (arith, e, h.counts, h.each j, tally-update (schedules j) n w.pc i enqueuing lt);
  }
  plain-Inv c p e pl = record {
    counts = ground (
      arith,
      e,
      h.counts,
      h.each i,
      le-tally completes n w.pc i lt,
      tally-update completes n w.pc i (act i c w.mem p).1 lt,
    );
    each = λ j. ground (
      arith,
      e,
      h.counts,
      h.each i,
      le-tally completes n w.pc i lt,
      h.each j,
      add-le-tally completes n w.pc i j,
      tally-update (schedules j) n w.pc i (act i c w.mem p).1 lt,
      occurs-append j w.mem.wait_q i,
      is_empty-append w.mem.wait_q i,
    );
  }

  take-Inv :
      (q : List ℕ) → w.pc i ≡ taking → w.mem.wait_q ≡ q → Inv n (commit i w (take_fiber q w.mem))
  unfolding take_fiber occurs
  take-Inv [] e eq = absurd (ground (arith, e, eq, lt, h.each i))
  take-Inv (k ∷ rest) e eq = record {
    counts = ground (
      arith,
      e,
      eq,
      lt,
      h.counts,
      h.each i,
      le-tally completes n w.pc i lt,
      tally-update completes n w.pc i (looking k) lt,
    );
    each = λ j. ground (
      arith,
      e,
      eq,
      lt,
      h.counts,
      h.each i,
      le-tally completes n w.pc i lt,
      h.each j,
      add-le-tally completes n w.pc i j,
      tally-update (schedules j) n w.pc i (looking k) lt,
      le-tally (schedules j) n w.pc i lt,
    );
  }

  -- A fiber that is to be scheduled is parked.
  target : (k : ℕ) (b : Bool) → w.pc i ≡ scheduling k b → (k < n) × (w.pc k ≡ parked)
  target k b e = elim (Bool-cases (ltb k n)) [
    | inl below ↦
        let lt_k : k < n = ltb→lt _ _ below in
        (lt_k, ground (arith, e, h.each k, lt_k, le-tally (schedules k) n w.pc i lt))
    | inr above ↦ absurd (ground (arith, e, above, h.each k, le-tally (schedules k) n w.pc i lt))
  ]

  schedule-Inv :
      (k : ℕ) (b : Bool)
      → w.pc i ≡ scheduling k b
      → (k < n) × (w.pc k ≡ parked)
      → Inv n (
          commit i (record w { pc = update w.pc k leaving }) (w.mem, if b then outside else taking))
  schedule-Inv k b e (lt_k, e_k) =
      let f : ℕ → Pc = update w.pc k leaving in
      let p : Pc = if b then outside else taking in
      record {
        counts = ground (
          arith,
          e,
          e_k,
          lt,
          h.counts,
          h.each i,
          le-tally completes n w.pc i lt,
          tally-update completes n w.pc k leaving lt_k,
          tally-update completes n f i p lt,
        );
        each = λ j. ground (
          arith,
          e,
          e_k,
          lt,
          lt_k,
          h.counts,
          h.each i,
          le-tally completes n w.pc i lt,
          h.each j,
          h.each k,
          add-le-tally completes n w.pc i j,
          tally-update (schedules j) n w.pc k leaving lt_k,
          tally-update (schedules j) n f i p lt,
        );
      }

  step-Inv : (c : Call) (p : Pc) → w.pc i ≡ p → Inv n (step i c w)
  unfolding step schedule act
  step-Inv c taking e = rw e (take-Inv w.mem.wait_q e refl)
  step-Inv c (scheduling k b) e = rw e (schedule-Inv k b e (target k b e))
  step-Inv c crashed e = absurd (ground (arith, e, h.each i, lt))
  step-Inv c p e = rw e (plain-Inv c p e refl)

no_one : (n j : ℕ) → occurs j [] + tally (schedules j) n (λ _. outside) ≡ 0
unfolding occurs
no_one n j = omega (arith, tally-eq-zero (schedules j) n (λ _. outside) (λ i lt. refl))

-- What holds after every schedule, if `Add` has a positive count that fits its counter.
pub run-Inv :
    (n count : ℕ)
    → 0 < count
    → count < 2 ^ 32
    → (ts : List (ℕ × Call)) → Inv n (run step n ts (init count))
unfolding add_calls
run-Inv n count pos small ts =
    let no_end = tally-eq-zero completes n (λ _. outside) (λ i lt. refl) in
    run_inv step n (Inv n) (λ i c w lt h. step-Inv n i lt w h c _ refl) ts (init count)
      (record {
        counts = record {
          countdown = omega arith;
          small = omega arith;
          early = λ _. no_end;
          one = omega (arith, no_end);
          over = λ z _. absurd (omega (arith, z));
        };
        each =
            λ j. record { known = λ _. refl; waits = λ _. no_one n j; members = λ _. no_one n j };
      })
