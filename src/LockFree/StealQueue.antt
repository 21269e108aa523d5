-- ===== src/LockFree/StealQueue.antt =====
-- tasks/lockfree/steal/work_stealing_queue.hpp: the bounded ring of one producer and many
-- consumers. Every load, store and compare-exchange of `head_`, `tail_` and a slot is one step.
pub mod Invariant
pub mod Moves
pub mod Safety
pub mod Takes
mod Tests
pub mod Reach
pub mod Contents
pub mod Window
use concurrency_course_by_li.Base.{
  ℕ, zero, suc, ◌+◌, ◌-◌, ◌*◌, ◌/◌, ◌%◌, ◌^◌, ◌≤◌, ◌<◌, ◌≡◌, refl, sym, ap, ◌∙◌, subst, ◌≢◌, ◌↔◌,
  ◌⊎◌, inl, inr, Bool, true, false, not, ◌&&◌, ◌||◌, Option, none, some, List, [], ◌∷◌, ◌++◌, map,
  append_assoc, append-nil, arith, ltb, leb, ◌==◌, if◌then◌else◌, ltb→lt, lt→ltb, ==_iff,
  Bool-cases, Option-cases, length, length-append, size_mod, wrap_add, wrap_sub,
}
use concurrency_course_by_li.Threads.{
  update, tally, tally-update, le-tally, add-le-tally, tally-eq-zero, of_tally-eq-zero,
  member_of_tally, tally-map, tally-map_le, tally-alone, tally-none, add-tally-le, run_inv_timed,
  World, commit, turn, run, run_inv,
}

-- `WorkStealingQueue`; `T` stands for `T*`. The last two fields are not in the source: what was
-- pushed and what was taken out, the oldest first.
pub record Queue (T : Type 0) : Type 0 where
  pub head : ℕ
  pub tail : ℕ
  pub buffer : ℕ → T
  pub pushed : List T
  pub taken : List T

pub data Returned (T : Type 0) : Type 0 where
  nothing : Returned T
  push_returned : Bool → Returned T
  pop_returned : T → Returned T
  grab_returned : List T → Returned T

-- Where a thread stands, with its locals. `TryPush`: in `IsFull` with the tail, before the load of
-- the tail, before the store of the slot, before the store of the tail. `TryPop`: in `IsEmpty`
-- before each of its loads, before the load of the slot, before the compare-exchange. `Grab`: in
-- `CountElements` before each of its loads, in the loop with what it has copied and the number that
-- is left, before the compare-exchange.
pub data Pc (T : Type 0) : Type 0 where
  outside : Returned T → Pc T
  push_full : (item : T) (tail : ℕ) → Pc T
  push_load : (item : T) → Pc T
  push_slot : (item : T) (tail : ℕ) → Pc T
  push_tail : (item : T) (tail : ℕ) → Pc T
  pop_check : (current : ℕ) → Pc T
  pop_check_tail : (current head : ℕ) → Pc T
  pop_read : (current : ℕ) → Pc T
  pop_cas : (current : ℕ) (item : T) → Pc T
  grab_count : (room current : ℕ) → Pc T
  grab_count_head : (room current tail : ℕ) → Pc T
  grab_copy : (room current : ℕ) (out : List T) (left : ℕ) → Pc T
  grab_cas : (room current : ℕ) (out : List T) → Pc T

pub data Call (T : Type 0) : Type 0 where
  call_push : (item : T) → Call T
  call_pop : Call T
  call_grab : (room : ℕ) → Call T

-- `ToIndex`, at a capacity.
unfoldable pub to_index : ℕ → ℕ → ℕ
to_index capacity pos = pos % (capacity + 1)

-- `null` is the null pointer, `capacity` the template argument; `Capacity + 1` has to fit `size_t`.
module _ {T : Type 0} (null : T) (capacity : ℕ) where
  abbrev pub create : Queue T
  create = record { head = 0; tail = 0; buffer = λ _. null; pushed = []; taken = [] }

  -- The rest of `IsFull`.
  pub full_test : T → ℕ → Queue T → Queue T × Pc T
  full_test v t q =
      (q, if wrap_sub t q.head == capacity then outside (push_returned false) else push_load v)

  pub store_slot : T → ℕ → Queue T → Queue T × Pc T
  store_slot v t q = (record q { buffer = update q.buffer (to_index capacity t) v }, push_tail v t)

  pub store_tail : T → ℕ → Queue T → Queue T × Pc T
  store_tail v t q = (
    record q { tail = wrap_add t 1; pushed = q.pushed ++ (v ∷ []) },
    outside (push_returned true),
  )

  -- The rest of `IsEmpty`, and the test of it.
  pub empty_test : ℕ → ℕ → Queue T → Queue T × Pc T
  empty_test current h q =
      (q, if h == q.tail then outside (pop_returned null) else pop_read current)

  -- The compare-exchange of `TryPop`.
  pub pop_exchange : ℕ → T → Queue T → Queue T × Pc T
  pop_exchange current v q =
      if q.head == current
      then (
        record q { head = wrap_add current 1; taken = q.taken ++ (v ∷ []) },
        outside (pop_returned v),
      )
      else (q, pop_check q.head)

  -- The rest of `CountElements`, and the size of the grab.
  pub grab_size : ℕ → ℕ → ℕ → Queue T → Queue T × Pc T
  grab_size room current t q =
      let size = wrap_sub t q.head in
      (
        q,
        if size == 0
            then outside (grab_returned [])
            else grab_copy room current [] (if ltb room size then room else size),
      )

  -- One round of the loop of `Grab`, or its end.
  pub grab_round : ℕ → ℕ → List T → ℕ → Queue T → Queue T × Pc T
  grab_round room current out zero q = (q, grab_cas room current out)
  grab_round room current out (suc left) q =
      let v = q.buffer (to_index capacity (wrap_add current (length out))) in
      (q, grab_copy room current (out ++ (v ∷ [])) left)

  -- The compare-exchange of `Grab`.
  pub grab_exchange : ℕ → ℕ → List T → Queue T → Queue T × Pc T
  grab_exchange room current out q =
      if q.head == current
      then (
        record q { head = wrap_add current (length out); taken = q.taken ++ out },
        outside (grab_returned out),
      )
      else (q, grab_count room q.head)

  -- Thread 0 is the producer, the one thread that may call `TryPush`.
  pub act : ℕ → Call T → Queue T → Pc T → Queue T × Pc T
  unfolding full_test store_slot store_tail empty_test pop_exchange grab_size grab_round
      grab_exchange
  act i (call_push v) q (outside r) = (q, if i == 0 then push_full v q.tail else outside r)
  act i call_pop q (outside r) = (q, pop_check q.head)
  act i (call_grab room) q (outside r) = (q, grab_count room q.head)
  act i c q (push_full v t) = full_test v t q
  act i c q (push_load v) = (q, push_slot v q.tail)
  act i c q (push_slot v t) = store_slot v t q
  act i c q (push_tail v t) = store_tail v t q
  act i c q (pop_check current) = (q, pop_check_tail current q.head)
  act i c q (pop_check_tail current h) = empty_test current h q
  act i c q (pop_read current) = (q, pop_cas current (q.buffer (to_index capacity current)))
  act i c q (pop_cas current v) = pop_exchange current v q
  act i c q (grab_count room current) = (q, grab_count_head room current q.tail)
  act i c q (grab_count_head room current t) = grab_size room current t q
  act i c q (grab_copy room current out left) = grab_round room current out left q
  act i c q (grab_cas room current out) = grab_exchange room current out q

  unfoldable pub step : ℕ → Call T → World (Queue T) (Pc T) → World (Queue T) (Pc T)
  unfolding act
  step i c w = commit i w (act i c w.mem (w.pc i))

  abbrev pub init : World (Queue T) (Pc T)
  init = record { mem = create; pc = λ _. outside nothing }
