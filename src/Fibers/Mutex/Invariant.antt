-- ===== src/Fibers/Mutex/Invariant.antt =====
-- How the status and the queue of tasks/fibers/mutex/exe/fibers/sync/mutex.hpp go with the fibers.
use concurrency_course_by_li.Base.{
  ℕ, ◌+◌, ◌≤◌, ◌<◌, ◌≡◌, refl, true, false, not, List, [], ◌∷◌, ◌++◌, arith, ◌==◌, if◌then◌else◌,
}
use concurrency_course_by_li.Threads.{tally, World}
use concurrency_course_by_li.Fibers.Mutex.{
  Mutex, Pc, parked, inside, unlocking, scheduling, crashed, is_empty,
}

-- Who has the mutex, or is to hand it over.
abbrev pub owns : Pc → ℕ
owns inside = 1
owns unlocking = 1
owns (scheduling _) = 1
owns _ = 0

abbrev pub schedules : ℕ → Pc → ℕ
schedules j (scheduling k) = if k == j then 1 else 0
schedules j _ = 0

abbrev pub parks : Pc → ℕ
parks parked = 1
parks _ = 0

abbrev pub hands_over : Pc → ℕ
hands_over unlocking = 1
hands_over crashed = 2
hands_over _ = 0

unfoldable pub occurs : ℕ → List ℕ → ℕ
occurs j [] = 0
occurs j (k ∷ q) = occurs j q + (if k == j then 1 else 0)

pub occurs-append :
    (j : ℕ) (q : List ℕ) (k : ℕ) → occurs j (q ++ (k ∷ [])) ≡ occurs j q + (if k == j then 1 else 0)
unfolding occurs
occurs-append j [] k = refl
occurs-append j (a ∷ q) k = omega (arith, occurs-append j q k)

pub occurs-empty : (i : ℕ) (q : List ℕ) → is_empty q ≡ true → occurs i q ≡ 0
unfolding occurs
occurs-empty i [] e = refl
occurs-empty i (k ∷ q) e = absurd (ground (arith, e))

pub is_empty-append : (q : List ℕ) (k : ℕ) → is_empty (q ++ (k ∷ [])) ≡ false
is_empty-append [] k = refl
is_empty-append (a ∷ q) k = refl

-- The fiber `j`, if there is one, is parked as long as it is in the queue or about to be scheduled.
pub record Each (n : ℕ) (w : World Mutex Pc) (j : ℕ) : Type 0 where
  pub handed : j < n → hands_over (w.pc j) ≤ (if w.mem.st == 2 then 1 else 0)
  pub waiting : j < n → occurs j w.mem.park_q + tally (schedules j) n w.pc ≡ parks (w.pc j)
  pub members : n ≤ j → occurs j w.mem.park_q + tally (schedules j) n w.pc ≡ 0

pub record Inv (n : ℕ) (w : World Mutex Pc) : Type 0 where
  pub owned : tally owns n w.pc ≡ (if w.mem.st == 0 then 0 else 1)
  pub waiters : is_empty w.mem.park_q ≡ not (w.mem.st == 2)
  pub status : w.mem.st ≤ 2
  pub each : (j : ℕ) → Each n w j
