-- ===== src/Exec/Strand/Queue.antt =====
-- The strand of tasks/tasks/executors/exe/executors/strand.cpp over the queue of
-- exe/support/msqueue.hpp: `Put` and `Take` at their accesses of `head_`, `tail_` and the nodes' links,
-- with the nodes that `CollectGarbage` deletes. A node has the number of its link; before that no other
-- thread can see it. The value of a node is moved out in the step of the compare-exchange that takes it,
-- since no other thread looks at that value; `deleted_` belongs to the one thread that takes.
use concurrency_course_by_li.Base.{
  ℕ, zero, suc, ◌+◌, ◌-◌, ◌/◌, Bool, true, false, not, ◌&&◌, ◌||◌, Option, none, some, List, [],
  ◌∷◌, ◌++◌, ltb, ◌==◌, if◌then◌else◌, length,
}
use concurrency_course_by_li.Threads.{update, World, commit}
use concurrency_course_by_li.Exec.Strand.{
  Strand, Pc, outside, linked, run_take, run_taken, crashed, Call, call_submit, create, act,
  put_link, take_node,
}

-- The fields of the queue but for `size_`, and its nodes. Not in the source: how many nodes there are,
-- which were deleted, and whether one was used behind that, or a null pointer.
pub record MsQueue (T : Type 0) : Type 0 where
  pub next : ℕ → Option ℕ
  pub value : ℕ → Option T
  pub head : ℕ
  pub tail : ℕ
  pub deleted : List ℕ
  pub nodes : ℕ
  pub freed : ℕ → Bool
  pub fault : Bool

-- The strand with its counters, and its queue. The list of tasks in `strand` is not in the source: it
-- is what the queue holds.
pub record Impl (T : Type 0) : Type 0 where
  pub strand : Strand T
  pub queue : MsQueue T

-- Where a thread stands: outside the queue; in `Put`, before it loads `tail_`, before it looks at the
-- link of that node, before it helps, before it links its own, and before the last compare-exchange
-- with its node; in `Take`, before it loads `head_`, before it looks at the link of that node, before
-- the compare-exchange, and before it marks the node that was the head as deleted.
pub data At (T : Type 0) : Type 0 where
  at : (p : Pc T) → At T
  putting : (task : T) → At T
  put_looking put_helping put_linking : (task : T) (curr_tail : ℕ) → At T
  swinging : (new_node : ℕ) → At T
  take_loading : (batch : List T) → At T
  take_looking take_moving : (batch : List T) (curr_head : ℕ) → At T
  marking : (batch : List T) (curr_head : ℕ) (item : T) → At T

-- What is up to chance: whether a weak compare-exchange fails where it might succeed, and the value of
-- the variable `curr_tail` outside the loop of `Put`, to which nothing is assigned.
pub record Chance : Type 0 where
  pub spurious : Bool
  pub unassigned : ℕ

module _ {T : Type 0} where
  -- The constructor, with the sentinel.
  abbrev pub new_queue : MsQueue T
  new_queue = record {
    next = λ _. none;
    value = λ _. none;
    head = 0;
    tail = 0;
    deleted = [];
    nodes = 1;
    freed = λ _. false;
    fault = false;
  }

  unfoldable pub use_node : ℕ → MsQueue T → MsQueue T
  use_node a q = record q { fault = q.fault || q.freed a }

  -- Of a thread that is in the queue.
  abbrev pub enter : Pc T → At T
  enter (run_take batch) = take_loading batch
  enter p = at p

  unfoldable pub look_tail : T → ℕ → Option ℕ → At T
  look_tail v t none = put_linking v t
  look_tail v t (some x) = put_helping v t

  -- The compare-exchange that helps; a failure gives the tail that is there.
  unfoldable pub help_tail : Bool → T → ℕ → Option ℕ → MsQueue T → MsQueue T × At T
  help_tail spurious v t none q = (record q { fault = true }, putting v)
  help_tail spurious v t (some x) q =
      if q.tail == t && not spurious
      then (record q { tail = x }, putting v)
      else (q, put_linking v q.tail)

  -- The node is linked, or the loop of `Put` goes on.
  unfoldable pub link_node : Bool → T → ℕ → Option ℕ → Impl T → Impl T × At T
  unfolding put_link
  link_node spurious v t (some x) s = (s, putting v)
  link_node spurious v t none s = if spurious then (s, putting v) else (
    record {
      strand = put_link v s.strand;
      queue = record s.queue {
        next = update (update s.queue.next s.queue.nodes none) t (some s.queue.nodes);
        value = update s.queue.value s.queue.nodes (some v);
        nodes = s.queue.nodes + 1;
      };
    },
    swinging s.queue.nodes,
  )

  unfoldable pub swing_tail : ℕ → ℕ → MsQueue T → MsQueue T
  swing_tail unassigned a q = if q.tail == unassigned then record q { tail = a } else q

  -- Without a next node `Take` has no value, and `value()` throws.
  unfoldable pub look_head : List T → ℕ → Option ℕ → At T
  look_head batch h none = at crashed
  look_head batch h (some x) = take_moving batch h

  -- The node behind the sentinel becomes the sentinel, and its value is moved out.
  unfoldable pub move_item : List T → ℕ → ℕ → Option T → Impl T → Impl T × At T
  unfolding take_node
  move_item batch h x none s = (record s { queue = record s.queue { fault = true } }, at crashed)
  move_item batch h x (some v) s = (
    record {
      strand = (take_node s.strand.tasks batch s.strand).0;
      queue = record (use_node x s.queue) { head = x };
    },
    marking batch h v,
  )

  -- The compare-exchange of `Take`.
  unfoldable pub move_head : Bool → List T → ℕ → Option ℕ → Impl T → Impl T × At T
  unfolding move_item
  move_head spurious batch h none s =
      (record s { queue = record s.queue { fault = true } }, take_loading batch)
  move_head spurious batch h (some x) s =
      if s.queue.head == h && not spurious
      then move_item batch h x (s.queue.value x) s
      else (s, take_loading batch)

  -- `CollectGarbage`: the loop, with the number of nodes to delete.
  unfoldable pub collect : ℕ → List ℕ → MsQueue T → MsQueue T
  collect zero marked q = record q { deleted = marked }
  collect (suc k) [] q = record q { deleted = [] }
  collect (suc k) (a ∷ marked) q = collect k marked (record q { freed = update q.freed a true })

  unfoldable pub collect_garbage : List ℕ → MsQueue T → MsQueue T
  unfolding collect
  collect_garbage marked q =
      if ltb (length marked) 10
      then record q { deleted = marked }
      else collect (length marked - length marked / 2) marked q

  -- One step of a thread.
  unfoldable pub move : Call T → Chance → Impl T → At T → Impl T × At T
  unfolding use_node look_tail help_tail link_node swing_tail look_head move_head collect_garbage
      act
  move (call_submit v) x s (at outside) = (s, putting v)
  move c x s (at p) = let r = act c s.strand p in (record s { strand = r.0 }, enter r.1)
  move c x s (putting v) = (s, put_looking v s.queue.tail)
  move c x s (put_looking v t) =
      (record s { queue = use_node t s.queue }, look_tail v t (s.queue.next t))
  move c x s (put_helping v t) =
      let r = help_tail x.spurious v t (s.queue.next t) (use_node t s.queue) in
      (record s { queue = r.0 }, r.1)
  move c x s (put_linking v t) =
      link_node x.spurious v t (s.queue.next t) (record s { queue = use_node t s.queue })
  move c x s (swinging a) = (record s { queue = swing_tail x.unassigned a s.queue }, at linked)
  move c x s (take_loading batch) = (s, take_looking batch s.queue.head)
  move c x s (take_looking batch h) =
      (record s { queue = use_node h s.queue }, look_head batch h (s.queue.next h))
  move c x s (take_moving batch h) =
      move_head x.spurious batch h (s.queue.next h) (record s { queue = use_node h s.queue })
  move c x s (marking batch h v) = (
    record s { queue = collect_garbage (s.queue.deleted ++ (h ∷ [])) s.queue },
    at (run_taken batch v),
  )

  unfoldable pub turn_of : ℕ → Call T × Chance → World (Impl T) (At T) → World (Impl T) (At T)
  unfolding move
  turn_of i (c, x) w = commit i w (move c x w.mem (w.pc i))

  abbrev pub start : World (Impl T) (At T)
  start = record { mem = record { strand = create; queue = new_queue }; pc = λ _. at outside }
