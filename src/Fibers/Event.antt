-- ===== src/Fibers/Event.antt =====
-- tasks/fibers/mutex/exe/fibers/sync/event.hpp: an event that is fired once, and the queue of the
-- fibers that wait for it. A critical section under `lock_` is one step.
pub mod Invariant
pub mod Moves
pub mod Reach
pub mod Firing
mod Tests
use concurrency_course_by_li.Base.{
  ℕ, zero, suc, ◌+◌, ◌-◌, ◌*◌, ◌/◌, ◌%◌, ◌^◌, ◌≤◌, ◌<◌, ◌≡◌, refl, sym, ap, ◌∙◌, subst, ◌≢◌, ◌↔◌,
  ◌⊎◌, inl, inr, Bool, true, false, not, ◌&&◌, ◌||◌, Option, none, some, List, [], ◌∷◌, ◌++◌, map,
  append_assoc, append-nil, arith, ltb, leb, ◌==◌, if◌then◌else◌, ltb→lt, lt→ltb, ==_iff,
  Bool-cases, Option-cases, length, length-append, size_mod, wrap_add, wrap_sub,
}
use concurrency_course_by_li.Threads.{
  update, tally, tally-all, tally-update, le-tally, add-le-tally, tally-eq-zero, of_tally-eq-zero,
  member_of_tally, tally-map, tally-map_le, tally-alone, tally-none, add-tally-le, run_inv_timed,
  World, commit, turn, run, run_inv,
}
use concurrency_course_by_li.Fibers.Mutex.{is_empty}

-- The last field is not in the source: whether `Fire` was called.
pub record Event : Type 0 where
  pub wait_q : List ℕ
  pub is_fired : Bool
  pub is_called : Bool

-- Where a fiber stands: outside, in `EventAwaiter`, parked, or behind `Wait`; in `Fire` before the
-- critical section, before `Take`, and before it schedules a fiber, with the local `is_empty`; or the
-- program has asked an empty optional for its value.
pub data Pc : Type 0 where
  outside waiting parked returned firing draining : Pc
  scheduling : (fiber : ℕ) (is_last : Bool) → Pc
  crashed : Pc

pub data Call : Type 0 where
  call_wait call_fire : Call

-- The critical section of `EventAwaiter` for the fiber `i`, which else is scheduled at once.
pub await_suspend : ℕ → Event → Event × Pc
await_suspend i v =
    if not v.is_fired then (record v { wait_q = v.wait_q ++ (i ∷ []) }, parked) else (v, returned)

-- The critical section of `Fire`, and the condition of its loop.
pub fire : Event → Event × Pc
fire v = (record v { is_fired = true }, if is_empty v.wait_q then outside else draining)

-- `Take` in the loop of `Fire`, where the queue is as given.
pub take_fiber : List ℕ → Event → Event × Pc
take_fiber [] v = (v, crashed)
take_fiber (j ∷ rest) v = (record v { wait_q = rest }, scheduling j (is_empty rest))

-- One step of the fiber `i`. `Fire` is called once.
pub act : ℕ → Call → Event → Pc → Event × Pc
unfolding await_suspend fire take_fiber
act i call_wait v outside = (v, waiting)
act i call_fire v outside =
    if v.is_called then (v, outside) else (record v { is_called = true }, firing)
act i _ v waiting = await_suspend i v
act i _ v parked = (v, parked)
act i _ v returned = (v, returned)
act i _ v firing = fire v
act i _ v draining = take_fiber v.wait_q v
act i _ v (scheduling j is_last) = (v, if is_last then outside else draining)
act i _ v crashed = (v, crashed)

-- `Schedule` of the fiber that was taken, whose `Wait` returns.
pub schedule : Pc → (ℕ → Pc) → ℕ → Pc
schedule (scheduling j is_last) pc = update pc j returned
schedule _ pc = pc

unfoldable pub step : ℕ → Call → World Event Pc → World Event Pc
unfolding act schedule
step i c w = commit i (record w { pc = schedule (w.pc i) w.pc }) (act i c w.mem (w.pc i))

abbrev pub init : World Event Pc
init = record {
  mem = record { wait_q = []; is_fired = false; is_called = false };
  pc = λ _. outside;
}
