-- ===== src/Exec/Manual.antt =====
-- tasks/tasks/executors/exe/executors/manual.cpp: the executor whose owner runs the tasks, in one
-- thread. What a task submits to the executor while it runs is a parameter.
pub mod Order
mod Tests
use concurrency_course_by_li.Base.{
  ℕ, zero, suc, ◌+◌, ◌-◌, ◌*◌, ◌/◌, ◌%◌, ◌^◌, ◌≤◌, ◌<◌, ◌≡◌, refl, sym, ap, ◌∙◌, subst, ◌≢◌, ◌↔◌,
  ◌⊎◌, inl, inr, Bool, true, false, not, ◌&&◌, ◌||◌, Option, none, some, List, [], ◌∷◌, ◌++◌, map,
  append_assoc, append-nil, arith, ltb, leb, ◌==◌, if◌then◌else◌, ltb→lt, lt→ltb, ==_iff,
  Bool-cases, Option-cases, length, length-append,
}

-- `ManualExecutor`; the queue in one thread is a list. The second field is not in the source: the
-- tasks run so far, the oldest first.
pub record Manual (T : Type 0) : Type 0 where
  pub tasks : List T
  pub executed : List T

module _ {T : Type 0} where
  pub submit : T → Manual T → Manual T
  submit v s = record s { tasks = s.tasks ++ (v ∷ []) }

  abbrev pub is_empty : List T → Bool
  is_empty [] = true
  is_empty (_ ∷ _) = false

  module _ (submits : T → List T) where
    -- `Take().value()` and the call of the task, on the tasks of the queue.
    unfoldable pub run_front : List T → Manual T → Manual T
    run_front [] s = s
    run_front (v ∷ rest) s = record { tasks = rest ++ submits v; executed = s.executed ++ (v ∷ []) }

    -- The loop of `RunAtMost` at `i`, with the rounds that are left, and what it returns.
    unfoldable pub rounds : ℕ → ℕ → Manual T → Manual T × ℕ
    unfolding run_front
    rounds zero i s = (s, i)
    rounds (suc left) i s =
        let next = rounds left (suc i) (run_front s.tasks s) in
        if is_empty s.tasks then (s, i) else next

    pub run_at_most : ℕ → Manual T → Manual T × ℕ
    unfolding rounds
    run_at_most limit s = rounds limit 0 s

    pub run_next : Manual T → Manual T × Bool
    unfolding run_at_most
    run_next s = let (s', count) = run_at_most 1 s in (s', count == 1)

    -- The loop of `Drain`, on fuel; without fuel it has not returned.
    unfoldable pub drain_rounds : ℕ → ℕ → Manual T → Option (Manual T × ℕ)
    unfolding run_front
    drain_rounds zero i s = if is_empty s.tasks then some (s, i) else none
    drain_rounds (suc fuel) i s =
        let next = drain_rounds fuel (suc i) (run_front s.tasks s) in
        if is_empty s.tasks then some (s, i) else next
