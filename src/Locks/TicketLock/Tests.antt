-- ===== src/Locks/TicketLock/Tests.antt =====
-- tasks/mutex/try-lock/ticket_lock.hpp at work, and its theorems there.
use concurrency_course_by_li.Base.{ℕ, ◌<◌, ◌≡◌, refl, List, [], ◌∷◌, ◌++◌, arith}
use concurrency_course_by_li.Threads.{tally, run}
use concurrency_course_by_li.Locks.TicketLock.{
  Call, call_lock, call_try_lock, outside, spinning, trying, inside, act, step, init,
}
use concurrency_course_by_li.Locks.TicketLock.Order.{
  ticket_mutual_exclusion, ticket_order, ticket_progress,
}

-- Thread 0 is inside, threads 1 and 2 spin, and thread 3 has loaded the owner's ticket.
abbrev contended : List (ℕ × Call)
contended =
    (0, call_lock) ∷ (0, call_lock) ∷ (1, call_lock) ∷ (2, call_lock) ∷ (3, call_try_lock) ∷ []

contended_pcs :
    let w = run step 4 contended init in
    (w.pc 0 ≡ inside) × (w.pc 1 ≡ spinning 1) × (w.pc 2 ≡ spinning 2) × (w.pc 3 ≡ trying 0)
unfolding run step act
contended_pcs = (refl, refl, refl, refl)

-- Alone, `TryLock` takes the lock; behind a ticket, it fails.
alone : (run step 1 ((0, call_try_lock) ∷ (0, call_try_lock) ∷ []) init).pc 0 ≡ inside
unfolding run step act
alone = refl

refused : (run step 4 (contended ++ (3, call_try_lock) ∷ []) init).pc 3 ≡ outside
unfolding run step act
refused = refl

ticket_mutual_exclusion_example : ◌≡◌ {A = ℕ} 0 0
unfolding run step act
ticket_mutual_exclusion_example =
    ticket_mutual_exclusion 4 contended (omega arith) 0 0 (omega arith) (omega arith) refl refl

ticket_order_example : (step 2 call_lock (run step 4 contended init)).pc 2 ≡ spinning 2
unfolding run step act
ticket_order_example =
    ticket_order 4 contended (omega arith) 1 2 1 2 call_lock (omega arith) (omega arith) refl refl

-- The owner has left.
abbrev left : List (ℕ × Call)
left = (0, call_lock) ∷ (0, call_lock) ∷ (1, call_lock) ∷ (0, call_lock) ∷ []

ticket_progress_example :
    (j : ℕ) × (j < 2) × ((step j call_lock (run step 2 left init)).pc j ≡ inside)
unfolding run step act tally
ticket_progress_example = ticket_progress 2 left (omega arith) 1 1 call_lock (omega arith) refl refl
