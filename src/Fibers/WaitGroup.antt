-- ===== src/Fibers/WaitGroup.antt =====
-- tasks/fibers/mutex/exe/fibers/sync/wait_group.hpp: a wait group whose fibers wait in a queue. A
-- critical section under `mtx_` is one step, and so is an operation of the queue: fibers are put there
-- under `mtx_` and while the countdown is positive, and taken out by the one `Done` that has brought
-- it to 0 and locked `mtx_` after that, so that the operations do not overlap.
pub mod Invariant
pub mod Reach
pub mod Waiting
mod Tests
use concurrency_course_by_li.Base.{
  ℕ, zero, suc, ◌+◌, ◌-◌, ◌*◌, ◌/◌, ◌%◌, ◌^◌, ◌≤◌, ◌<◌, ◌≡◌, refl, sym, ap, ◌∙◌, subst, ◌≢◌, ◌↔◌,
  ◌⊎◌, inl, inr, Bool, true, false, not, ◌&&◌, ◌||◌, Option, none, some, List, [], ◌∷◌, ◌++◌, map,
  append_assoc, append-nil, arith, ltb, leb, ◌==◌, if◌then◌else◌, ltb→lt, lt→ltb, ==_iff,
  Bool-cases, Option-cases, length, length-append, size_mod, wrap_add, wrap_sub,
}
use concurrency_course_by_li.Threads.{
  update, tally, tally-all, tally-update, le-tally, add-le-tally, tally-eq-zero, of_tally-eq-zero,
  member_of_tally, others, others_add, others-update, tally-map, tally-map_le, tally-alone,
  tally-none, add-tally-le, run_inv_timed, World, commit, turn, run, run_inv,
}
use concurrency_course_by_li.Fibers.Mutex.{is_empty}

-- The last field is not in the source: how many calls of `Done` are still to come.
pub record WaitGroup : Type 0 where
  pub wait_q : List ℕ
  pub done_calls_countdown : ℕ
  pub suspended_waits_counter : ℕ
  pub is_last_wait_completed : Bool
  pub owed : ℕ

abbrev pub create : WaitGroup
create = record {
  wait_q = [];
  done_calls_countdown = 0;
  suspended_waits_counter = 0;
  is_last_wait_completed = false;
  owed = 0;
}

-- Where a fiber stands: outside; in `Wait` before `TryEnqueue`, parked in the queue, in `Reschedule`
-- before and in its loop, before the counter is taken back, and behind it; in `Done` before
-- the critical section, before the store for an empty queue, and in the loop before `Take`, before
-- `IsEmpty`, before the store and before `Schedule`; or it has asked an empty optional for its value.
pub data Pc : Type 0 where
  outside enqueuing parked rescheduling spinning leaving returned : Pc
  checking completing taking : Pc
  looking marking : (fiber : ℕ) → Pc
  scheduling : (fiber : ℕ) (is_last : Bool) → Pc
  crashed : Pc

pub data Call : Type 0 where
  call_wait call_done : Call

-- `Add`, and the program's promise of as many calls of `Done`.
pub add_calls : ℕ → WaitGroup → WaitGroup
add_calls count g = record g {
  done_calls_countdown = (g.done_calls_countdown + count) % 2 ^ 32;
  owed = g.owed + count;
}

pub count_wait : WaitGroup → WaitGroup
count_wait g = record g { suspended_waits_counter = (g.suspended_waits_counter + 1) % 2 ^ 32 }

pub uncount_wait : WaitGroup → WaitGroup
uncount_wait g = record g {
  suspended_waits_counter = (g.suspended_waits_counter + (2 ^ 32 - 1)) % 2 ^ 32;
}

-- The `fetch_sub` of `Done`; no more calls are made than there are to come.
pub count_down : WaitGroup → WaitGroup × Pc
count_down g = if g.owed == 0 then (g, outside) else (
  record g {
    done_calls_countdown = (g.done_calls_countdown + (2 ^ 32 - 1)) % 2 ^ 32;
    owed = g.owed - 1;
  },
  if g.done_calls_countdown == 1 then checking else outside,
)

-- `TryEnqueue` of the fiber `i`.
pub try_enqueue : ℕ → WaitGroup → WaitGroup × Pc
try_enqueue i g =
    if not (g.done_calls_countdown == 0)
    then (record g { wait_q = g.wait_q ++ (i ∷ []) }, parked)
    else (g, rescheduling)

-- `Take` in the loop of `Done`, where the queue is as given.
pub take_fiber : List ℕ → WaitGroup → WaitGroup × Pc
take_fiber [] g = (g, crashed)
take_fiber (j ∷ rest) g = (record g { wait_q = rest }, looking j)

pub complete_last : WaitGroup → WaitGroup
complete_last g = record g { is_last_wait_completed = true }

-- One step of the fiber `i`.
pub act : ℕ → Call → WaitGroup → Pc → WaitGroup × Pc
unfolding count_wait uncount_wait count_down try_enqueue take_fiber complete_last
act i call_wait g outside = (count_wait g, enqueuing)
act i call_done g outside = count_down g
act i c g enqueuing = try_enqueue i g
act i c g parked = (g, parked)
act i c g rescheduling = (g, if g.suspended_waits_counter == 1 then spinning else leaving)
act i c g spinning = (g, if g.is_last_wait_completed then leaving else spinning)
act i c g leaving = (uncount_wait g, returned)
act i c g returned = (g, returned)
act i c g checking = (g, if is_empty g.wait_q then completing else taking)
act i c g completing = (complete_last g, outside)
act i c g taking = take_fiber g.wait_q g
act i c g (looking j) = (g, if is_empty g.wait_q then marking j else scheduling j false)
act i c g (marking j) = (complete_last g, scheduling j true)
act i c g (scheduling j is_last) = (g, if is_last then outside else taking)
act i c g crashed = (g, crashed)

-- `Schedule` of the fiber that was taken, which goes on in `Wait`.
pub schedule : Pc → (ℕ → Pc) → ℕ → Pc
schedule (scheduling j is_last) pc = update pc j leaving
schedule _ pc = pc

unfoldable pub step : ℕ → Call → World WaitGroup Pc → World WaitGroup Pc
unfolding act schedule
step i c w = commit i (record w { pc = schedule (w.pc i) w.pc }) (act i c w.mem (w.pc i))

-- After `Add`, once.
abbrev pub init : ℕ → World WaitGroup Pc
init count = record { mem = add_calls count create; pc = λ _. outside }
