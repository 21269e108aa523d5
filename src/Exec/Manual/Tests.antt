-- ===== src/Exec/Manual/Tests.antt =====
-- Runs of tasks/tasks/executors/exe/executors/manual.cpp: a task is a number, and task n + 1 submits
-- task n while it runs.
use concurrency_course_by_li.Base.{
  ℕ, zero, suc, ◌≤◌, ◌<◌, ◌≡◌, refl, ◌⊎◌, some, List, [], ◌∷◌, ◌++◌, arith, length,
}
use concurrency_course_by_li.Exec.Manual.{Manual, run_front, rounds, run_at_most, drain_rounds}
use concurrency_course_by_li.Exec.Manual.Order.{
  submitted_by, total, manual_run_order, manual_drain_returns,
}

abbrev follow_up : ℕ → List ℕ
follow_up zero = []
follow_up (suc n) = n ∷ []

abbrev two_tasks : Manual ℕ
two_tasks = record { tasks = 1 ∷ 5 ∷ []; executed = [] }

three_rounds :
    (rounds follow_up 3 0 two_tasks).0 ≡ record { tasks = 4 ∷ []; executed = 1 ∷ 5 ∷ 0 ∷ [] }
unfolding rounds run_front
three_rounds = refl

manual_run_order_example :
    let (s', count) = run_at_most follow_up 3 two_tasks in
    (ran : List ℕ) × (s'.executed ≡ [] ++ ran)
    × (ran ++ s'.tasks ≡ (1 ∷ 5 ∷ []) ++ submitted_by follow_up ran)
    × (count ≡ length ran)
    × (count ≤ 3)
    × ((count ≡ 3) ⊎ (s'.tasks ≡ []))
manual_run_order_example = manual_run_order follow_up 3 two_tasks

follow_up_less : (v : ℕ) → total follow_up suc (follow_up v) < suc v
unfolding total
follow_up_less zero = omega arith
follow_up_less (suc n) = omega arith

manual_drain_returns_example :
    (s' : Manual ℕ) × (ran : List ℕ) × (s'.executed ≡ [] ++ ran)
    × (ran ≡ (1 ∷ 5 ∷ []) ++ submitted_by follow_up ran)
    × (s'.tasks ≡ [])
    × (drain_rounds follow_up 8 0 two_tasks ≡ some (s', length ran))
unfolding total
manual_drain_returns_example =
    manual_drain_returns follow_up suc follow_up_less two_tasks 8 (omega arith)
