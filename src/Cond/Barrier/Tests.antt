-- ===== src/Cond/Barrier/Tests.antt =====
-- tasks/cond/barrier/cyclic_barrier.hpp at work, and its theorems there.
use concurrency_course_by_li.Base.{ℕ, ◌≤◌, ◌<◌, ◌≡◌, refl, Bool, false, List, [], ◌∷◌, ◌++◌, arith}
use concurrency_course_by_li.Threads.{run}
use concurrency_course_by_li.Cond.Barrier.{
  outside, arriving, relocking, signal, is_next, is_full, arrive, relock, depart, leave, reset, act,
  step, init,
}
use concurrency_course_by_li.Cond.Barrier.Rounds.{
  arrivals_by, is_blocked, barrier_rounds, barrier_progress,
}

abbrev go : ℕ → ℕ × Bool
go i = (i, false)

-- Thread 0 has arrived and sleeps; thread 1 arrives last and departs.
abbrev one_departed : List (ℕ × Bool)
one_departed = go 0 ∷ go 0 ∷ go 0 ∷ go 1 ∷ go 1 ∷ go 1 ∷ go 1 ∷ go 1 ∷ []

one_departed_pcs :
    let w = run step 2 one_departed (init 2) in
    ((w.pc 0).pc ≡ relocking) × ((w.pc 1).pc ≡ outside) × ((w.pc 1).rounds ≡ 1)
unfolding run step act signal is_next is_full arrive relock depart leave reset
one_departed_pcs = (refl, refl, refl)

-- Thread 1 comes back too early and sleeps at the limit, until thread 0 has departed, too.
next_round :
    let w =
      run step 2 (one_departed ++ go 1 ∷ go 1 ∷ go 0 ∷ go 0 ∷ go 0 ∷ go 0 ∷ go 1 ∷ []) (init 2) in
    ((w.pc 0).rounds ≡ 1) × ((w.pc 1).pc ≡ arriving) × (w.mem.generation ≡ 1)
unfolding run step act signal is_next is_full arrive relock depart leave reset
next_round = (refl, refl, refl)

barrier_rounds_example :
    let w = run step 2 one_departed (init 2) in (w.pc 1).rounds ≤ arrivals_by (w.pc 0)
barrier_rounds_example =
    barrier_rounds 2 one_departed (omega arith) (omega arith) 1 0 (omega arith) (omega arith)

barrier_progress_example :
    let w = run step 2 one_departed (init 2) in
    (i : ℕ) × (i < 2) × (is_blocked w.mem (w.pc i) ≡ false)
barrier_progress_example = barrier_progress 2 one_departed (omega arith) (omega arith)
