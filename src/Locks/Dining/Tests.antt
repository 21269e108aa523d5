-- ===== src/Locks/Dining/Tests.antt =====
-- tasks/mutex/dining at work, and its theorems there.
use concurrency_course_by_li.Base.{ℕ, ◌<◌, ◌≡◌, refl, Bool, true, false, List, [], ◌∷◌, arith}
use concurrency_course_by_li.Threads.{run}
use concurrency_course_by_li.Locks.Dining.{
  to_right, first_fork, second_fork, thinking, one_fork, at_left_plate, lock, unlock, act, step,
  init,
}
use concurrency_course_by_li.Locks.Dining.Progress.{
  is_blocked, dining_exclusion, dining_deadlock_free,
}

-- Of three philosophers, 2 eats, and 0 and 1 wait.
abbrev served : List (ℕ × Bool)
served = (2, true) ∷ (2, true) ∷ (1, true) ∷ (1, true) ∷ (0, true) ∷ []

served_pcs :
    let w = run step 3 served (init 3) in
    ((w.pc 2).pc ≡ at_left_plate) × ((w.pc 1).pc ≡ one_fork) × ((w.pc 0).pc ≡ thinking)
unfolding run step act lock unlock first_fork second_fork to_right
served_pcs = (refl, refl, refl)

-- A meal from the first fork to the last one.
meal :
    let w =
      run step 2
        ((0, true) ∷ (0, true) ∷ (0, true) ∷ (0, true) ∷ (0, true) ∷ (0, true) ∷ [])
        (init 2) in
    ((w.pc 0).meals ≡ 1) × (w.mem.forks 0 ≡ false) × (w.mem.forks 1 ≡ false)
unfolding run step act lock unlock first_fork second_fork to_right
meal = (refl, refl, refl)

dining_exclusion_example : ◌≡◌ {A = ℕ} 2 2
unfolding run step act lock unlock first_fork second_fork to_right
dining_exclusion_example =
    dining_exclusion 3 served (omega arith) 2 2 2 (omega arith) (omega arith) refl refl

dining_deadlock_free_example :
    let w = run step 3 served (init 3) in (i : ℕ) × (i < 3) × (is_blocked w.mem (w.pc i) ≡ false)
dining_deadlock_free_example = dining_deadlock_free 3 served (omega arith)
