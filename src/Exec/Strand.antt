-- ===== src/Exec/Strand.antt =====
-- tasks/tasks/executors/exe/executors/strand.cpp: a strand, the threads that submit to it, and the
-- threads of the underlying executor that run it. The queue here is a list, which changes where a node
-- is linked and where a node is taken, with `size_`, which changes later. This is the specification:
-- Queue has the queue of exe/support/msqueue.hpp with its nodes, Simulation shows that each schedule of
-- it is one of a strand over a list. What a task itself submits is one more thread's call.
pub mod Invariant
pub mod Moves
pub mod Order
pub mod Queue
pub mod Links
pub mod Refine
pub mod Follows
pub mod Simulation
pub mod ListSafety
pub mod Safety
mod Tests
use concurrency_course_by_li.Base.{
  ℕ, zero, suc, ◌+◌, ◌-◌, ◌*◌, ◌/◌, ◌%◌, ◌^◌, ◌≤◌, ◌<◌, ◌≡◌, refl, sym, ap, ◌∙◌, subst, ◌≢◌, ◌↔◌,
  ◌⊎◌, inl, inr, Bool, true, false, not, ◌&&◌, ◌||◌, Option, none, some, List, [], ◌∷◌, ◌++◌, map,
  append_assoc, append-nil, arith, ltb, leb, ◌==◌, if◌then◌else◌, ltb→lt, lt→ltb, ==_iff,
  Bool-cases, Option-cases, length, length-append, size_mod, wrap_add, wrap_sub,
}
use concurrency_course_by_li.Threads.{
  update, tally, tally-all, tally-update, le-tally, add-le-tally, tally-eq-zero, of_tally-eq-zero,
  member_of_tally, others, others_add, others-update, tally-map, tally-map_le, tally-alone,
  tally-none, add-tally-le, run_inv_timed, World, commit, turn, run, run_inv,
}

-- `Strand::Impl`, with the count of its `Run`s that wait in the underlying executor. The last two
-- are not in the source: the tasks linked into the queue and those run so far, the oldest first. Nor is
-- the list `tasks`, the tasks that the nodes of the queue hold.
pub record Strand (T : Type 0) : Type 0 where
  pub tasks : List T
  pub size : ℕ  -- `size_` of the queue
  pub scheduled : ℕ
  pub refs : ℕ
  pub submitted : ℕ
  pub accepted : List T
  pub executed : List T

-- Where a thread stands. In `Submit`: after the link of the node, after `Put`, before `AddRef`,
-- before the call of the executor. In `Run`, with the local queue: before `Take`, inside `Take`
-- with the node taken, at the loop's condition, in `RunTasks` with its count, before `fetch_sub`,
-- the two steps of `SubmitSelf`, before `ReleaseRef`.
pub data Pc (T : Type 0) : Type 0 where
  outside linked counted adding_ref posting : Pc T
  run_take : (batch : List T) → Pc T
  run_taken : (batch : List T) (task : T) → Pc T
  run_check : (batch : List T) → Pc T
  run_tasks : (batch : List T) (count : ℕ) → Pc T
  run_sub : (completed : ℕ) → Pc T
  run_adding_ref run_posting run_release crashed : Pc T

pub data Call (T : Type 0) : Type 0 where
  call_submit : (task : T) → Call T
  call_run : Call T

module _ {T : Type 0} where
  -- The strand after `refer::New`.
  abbrev pub create : Strand T
  create = record {
    tasks = [];
    size = 0;
    scheduled = 0;
    refs = 1;
    submitted = 0;
    accepted = [];
    executed = [];
  }

  -- The list when `Put` links a node.
  pub put_link : T → Strand T → Strand T
  put_link v s = record s { tasks = s.tasks ++ (v ∷ []); accepted = s.accepted ++ (v ∷ []) }

  -- The `fetch_add` of `Submit`.
  pub schedule : Strand T → Strand T × Pc T
  schedule s = (
    record s { scheduled = wrap_add s.scheduled 1 },
    if s.scheduled == 0 then adding_ref else outside,
  )

  -- The list when `Take` takes a node; without one, `value()` throws in a `noexcept` function.
  pub take_node : List T → List T → Strand T → Strand T × Pc T
  take_node [] batch s = (s, crashed)
  take_node (v ∷ rest) batch s = (record s { tasks = rest }, run_taken batch v)

  -- One round of `RunTasks`.
  pub run_task : List T → ℕ → Strand T → Strand T × Pc T
  run_task [] count s = (s, run_sub count)
  run_task (v ∷ batch) count s =
      (record s { executed = s.executed ++ (v ∷ []) }, run_tasks batch (suc count))

  -- The `fetch_sub` of `Run` and the test behind it.
  pub finish : ℕ → Strand T → Strand T × Pc T
  finish completed s = (
    record s { scheduled = wrap_sub s.scheduled completed },
    if ltb completed s.scheduled then run_adding_ref else run_release,
  )

  -- The executor hands a `Run` that waits to a thread.
  pub start_run : Strand T → Strand T × Pc T
  start_run s =
      if s.submitted == 0
      then (s, outside)
      else (record s { submitted = s.submitted - 1 }, run_take [])

  pub add_ref : Strand T → Strand T
  add_ref s = record s { refs = s.refs + 1 }

  pub submit_self : Strand T → Strand T
  submit_self s = record s { submitted = s.submitted + 1 }

  pub act : Call T → Strand T → Pc T → Strand T × Pc T
  unfolding put_link schedule take_node run_task finish start_run add_ref submit_self
  act (call_submit v) s outside = (put_link v s, linked)
  act call_run s outside = start_run s
  act _ s linked = (record s { size = wrap_add s.size 1 }, counted)
  act _ s counted = schedule s
  act _ s adding_ref = (add_ref s, posting)
  act _ s posting = (submit_self s, outside)
  act _ s (run_take batch) = take_node s.tasks batch s
  act _ s (run_taken batch v) =
      (record s { size = wrap_sub s.size 1 }, run_check (batch ++ (v ∷ [])))
  act _ s (run_check batch) = (s, if s.size == 0 then run_tasks batch 0 else run_take batch)
  act _ s (run_tasks batch count) = run_task batch count s
  act _ s (run_sub completed) = finish completed s
  act _ s run_adding_ref = (add_ref s, run_posting)
  act _ s run_posting = (submit_self s, run_release)
  act _ s run_release = (record s { refs = s.refs - 1 }, outside)
  act _ s crashed = (s, crashed)

  unfoldable pub step : ℕ → Call T → World (Strand T) (Pc T) → World (Strand T) (Pc T)
  unfolding act
  step i c w = commit i w (act c w.mem (w.pc i))

  abbrev pub init : World (Strand T) (Pc T)
  init = record { mem = create; pc = λ _. outside }
