-- ===== src/Locks/SpinLock/Exclusion.antt =====
-- The cell of the test-and-set lock (tasks/mutex/spinlock) is the number of threads inside.
use concurrency_course_by_li.Base.{
  ℕ, ◌≤◌, ◌<◌, ◌≡◌, ◌↔◌, inl, inr, true, List, arith, ◌==◌, ==_iff, Bool-cases,
}
use concurrency_course_by_li.Threads.{
  tally, tally-update, add-le-tally, tally-eq-zero, World, run, run_inv,
}
use concurrency_course_by_li.Locks.SpinLock.{
  TasSpinLock, Pc, outside, spinning, inside, Call, act, step, init, holds, try_lock,
}

record Inv (n : ℕ) (w : World TasSpinLock Pc) : Type 0 where
  counted : w.mem.locked.cell ≡ tally holds n w.pc
  small : tally holds n w.pc ≤ 1

step-Inv : (n i : ℕ) (c : Call) (w : World TasSpinLock Pc) → i < n → Inv n w → Inv n (step i c w)
unfolding step
step-Inv n i c w lt inv = ground (arith, tally-update holds n w.pc i (act c w.mem (w.pc i)).1)

run-Inv : (n : ℕ) (ts : List (ℕ × Call)) → Inv n (run step n ts init)
run-Inv n ts =
    run_inv step n (Inv n) (λ i c w. step-Inv n i c w) ts init
      (let e = tally-eq-zero holds n (λ _. outside) (λ _ _. omega arith) in omega (arith, e))

-- After every schedule of `Lock`, `TryLock` and `Unlock` by `n` threads, two threads that are
-- both inside are the same thread.
pub spin_mutual_exclusion :
    (n : ℕ) (ts : List (ℕ × Call)) (i j : ℕ)
    → i < n
    → j < n
    → (run step n ts init).pc i ≡ inside
    → (run step n ts init).pc j ≡ inside
    → i ≡ j
spin_mutual_exclusion n ts i j hi hj pi pj = elim (Bool-cases (i == j)) [
  | inl same ↦ (==_iff i j).0 same
  | inr other ↦
      let w = run step n ts init in ground (arith, run-Inv n ts, add-le-tally holds n w.pc i j)
]

-- After every schedule, `TryLock` succeeds exactly when no thread is inside.
pub spin_try_lock_iff :
    (n : ℕ) (ts : List (ℕ × Call))
    → let w = run step n ts init in ((try_lock w.mem).1 ≡ true) ↔ (tally holds n w.pc ≡ 0)
unfolding try_lock
spin_try_lock_iff n ts = ground (arith, run-Inv n ts)

-- After every schedule, the next turn of a thread that spins takes it inside exactly when no thread
-- is inside.
pub spin_progress :
    (n : ℕ) (ts : List (ℕ × Call)) (i : ℕ) (c : Call)
    → (run step n ts init).pc i ≡ spinning
    → ((step i c (run step n ts init)).pc i ≡ inside) ↔ (tally holds n (run step n ts init).pc ≡ 0)
unfolding step
spin_progress n ts i c h = ground (arith, run-Inv n ts)
