-- ===== src/Locks/TrickyLock/Counter.antt =====
-- The counter of tasks/mutex/livelock/tricky_lock.hpp counts the threads inside and those that are
-- to step back.
use concurrency_course_by_li.Base.{
  ℕ, ◌+◌, ◌≤◌, ◌<◌, ◌≡◌, refl, ◌↔◌, inl, inr, Bool, List, arith, ◌==◌, ==_iff, Bool-cases, size_mod,
}
use concurrency_course_by_li.Threads.{
  update, tally, tally-update, add-le-tally, tally-eq-zero, add-tally-le, World, run, run_inv,
}
use concurrency_course_by_li.Locks.TrickyLock.{
  TrickyLock, Pc, at_loop, stepping_back, inside, act, step, init,
}

abbrev pub holds : Pc → ℕ
holds inside = 1
holds _ = 0

abbrev pub backs : Pc → ℕ
backs stepping_back = 1
backs _ = 0

record Inv (n : ℕ) (w : World TrickyLock Pc) : Type 0 where
  counted : w.mem.thread_count ≡ tally holds n w.pc + tally backs n w.pc
  one : tally holds n w.pc ≤ 1

step-Inv :
    (n i : ℕ) (c : Bool) (w : World TrickyLock Pc)
    → n < size_mod
    → i < n
    → Inv n w
    → Inv n (step i c w)
unfolding step act
step-Inv n i c w small lt h =
    let p = (act w.mem (w.pc i)).1 in
    ground (
      arith,
      h,
      tally-update holds n w.pc i p lt,
      tally-update backs n w.pc i p lt,
      add-tally-le holds backs (λ q. ground arith) n w.pc,
      add-tally-le holds backs (λ q. ground arith) n (update w.pc i p),
    )

run-Inv : (n : ℕ) (ts : List (ℕ × Bool)) → n < size_mod → Inv n (run step n ts init)
run-Inv n ts small =
    run_inv step n (Inv n) (λ i c w lt h. step-Inv n i c w small lt h) ts init
      (let a = tally-eq-zero holds n (λ _. at_loop) (λ _ _. refl) in
        let b = tally-eq-zero backs n (λ _. at_loop) (λ _ _. refl) in
        record { counted = omega (arith, a, b); one = omega (arith, a) })

module _ (n : ℕ) (ts : List (ℕ × Bool)) (small : n < size_mod) where
  abbrev reached : World TrickyLock Pc
  reached = run step n ts init

  -- With a number of threads that fits `size_t`, after every schedule, two threads that are inside
  -- are the same.
  pub tricky_mutual_exclusion :
      (i j : ℕ) → i < n → j < n → reached.pc i ≡ inside → reached.pc j ≡ inside → i ≡ j
  tricky_mutual_exclusion i j hi hj pi pj = elim (Bool-cases (i == j)) [
    | inl same ↦ (==_iff i j).0 same
    | inr other ↦ ground (arith, run-Inv n ts small, add-le-tally holds n reached.pc i j)
  ]

  -- With a number of threads that fits `size_t`, after every schedule, the next turn of a thread at
  -- the loop takes it inside exactly when no thread is inside or to step back.
  pub tricky_entry_iff :
      (i : ℕ) (c : Bool)
      → reached.pc i ≡ at_loop
      → ((step i c reached).pc i ≡ inside)
        ↔ (tally holds n reached.pc + tally backs n reached.pc ≡ 0)
  unfolding step act
  tricky_entry_iff i c e = ground (arith, e, run-Inv n ts small)
