-- ===== src/Fibers/WaitGroup/Waiting.antt =====
-- What tasks/fibers/mutex/exe/fibers/sync/wait_group.hpp promises in every reachable state.
use concurrency_course_by_li.Base.{
  ℕ, ◌+◌, ◌^◌, ◌<◌, ◌≡◌, ◌≢◌, ◌⊎◌, inl, inr, Bool, true, false, List, arith, ltb, if◌then◌else◌,
  ltb→lt, Bool-cases,
}
use concurrency_course_by_li.Threads.{tally, member_of_tally, tally-none, World, run}
use concurrency_course_by_li.Fibers.Mutex.Invariant.{occurs-empty}
use concurrency_course_by_li.Fibers.WaitGroup.{
  WaitGroup, Pc, parked, spinning, leaving, returned, crashed, Call, act, schedule, step, init,
}
use concurrency_course_by_li.Fibers.WaitGroup.Invariant.{completes, schedules, Inv}
use concurrency_course_by_li.Fibers.WaitGroup.Reach.{run-Inv}

-- Where `Wait` does not go on by itself.
abbrev pub stays : Pc → Bool
stays parked = true
stays spinning = true
stays _ = false

abbrev pub is_returned : Pc → Bool
is_returned returned = true
is_returned _ = false

schedules-completes : (i : ℕ) (p : Pc) → completes p ≡ 0 → schedules i p ≡ 0
schedules-completes i p e = ground (arith, e)

module _ (n count : ℕ) (pos : 0 < count) (small : count < 2 ^ 32) (ts : List (ℕ × Call)) where
  abbrev reached : World WaitGroup Pc
  reached = run step n ts (init count)

  abbrev inv : Inv n reached
  inv = run-Inv n count pos small ts

  -- After `Add` of a positive count below 2^32 and every schedule of at most that many calls of
  -- `Done` and any calls of `Wait` by `n` fibers, a fiber has not asked an empty queue for a fiber; and
  -- if its `Wait` is over then all those calls of `Done` have counted down.
  pub fiber_wait_after_done :
      (i : ℕ)
      → i < n
      → (reached.pc i ≢ crashed)
        × ((if is_returned (reached.pc i)
              then reached.mem.owed + reached.mem.done_calls_countdown
              else 0)
            ≡ 0)
  fiber_wait_after_done i hi =
      (λ z. ground (arith, z, hi, inv.each i), ground (arith, hi, inv.each i, inv.counts.countdown))

  -- After every such schedule with all the calls of `Done`, if a fiber is parked or in the loop of
  -- `Wait`, then another one is on its way through `Done` behind the last count, or the fiber is in the
  -- loop and leaves it at its next turn.
  pub fiber_wait_no_lost_fiber :
      (i : ℕ) (c : Call)
      → i < n
      → reached.mem.owed ≡ 0
      → stays (reached.pc i) ≡ true
      → ((j : ℕ) × (j < n) × (0 < completes (reached.pc j))) ⊎ ((step i c reached).pc i ≡ leaving)
  unfolding step act schedule
  fiber_wait_no_lost_fiber i c hi over stay =
      elim (Bool-cases (ltb 0 (tally completes n reached.pc))) [
        | inl someone ↦ inl (member_of_tally completes n reached.pc (ltb→lt _ _ someone))
        | inr no_one ↦
            let e : tally completes n reached.pc ≡ 0 = ground (arith, no_one) in
            let (no_queue, last) = inv.counts.over over e in
            inr (
              ground (
                arith,
                last,
                stay,
                hi,
                inv.each i,
                occurs-empty i reached.mem.wait_q no_queue,
                tally-none completes (schedules i) (schedules-completes i) n reached.pc e,
              ))
      ]
