-- ===== src/Locks/TrickyLock/Tests.antt =====
-- tasks/mutex/livelock/tricky_lock.hpp at work, and its theorems there.
use concurrency_course_by_li.Base.{ℕ, ◌+◌, ◌≡◌, refl, ◌↔◌, Bool, true, List, [], ◌∷◌, ◌++◌, arith}
use concurrency_course_by_li.Threads.{tally, run}
use concurrency_course_by_li.Locks.TrickyLock.{inside, step_in, step_back, unlock, act, step, init}
use concurrency_course_by_li.Locks.TrickyLock.Counter.{holds, backs, tricky_entry_iff}

abbrev go : ℕ → ℕ × Bool
go i = (i, true)

-- Thread 0 leaves while thread 1 is to step back; then they hold each other up for ever.
abbrev left : List (ℕ × Bool)
left = go 0 ∷ go 1 ∷ go 0 ∷ []

abbrev live_locked : List (ℕ × Bool)
live_locked = left ++ go 0 ∷ go 1 ∷ go 1 ∷ go 0 ∷ go 0 ∷ []

same_again :
    let v = run step 2 (left ++ go 0 ∷ []) init in
    let w = run step 2 live_locked init in (v.pc 0 ≡ w.pc 0) × (v.pc 1 ≡ w.pc 1) × (v.mem ≡ w.mem)
unfolding run step act step_in step_back unlock
same_again = (refl, refl, refl)

tricky_entry_iff_example :
    let w = run step 2 left init in
    ((step 0 true w).pc 0 ≡ inside) ↔ (tally holds 2 w.pc + tally backs 2 w.pc ≡ 0)
unfolding run step act step_in step_back unlock
tricky_entry_iff_example = tricky_entry_iff 2 left (omega arith) 0 true refl
