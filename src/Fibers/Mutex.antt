-- ===== src/Fibers/Mutex.antt =====
-- tasks/fibers/mutex/exe/fibers/sync/mutex.hpp: a mutex on which fibers are parked in a queue. A
-- critical section under `mtx_` is one step: while it lasts, `st_` does not become
-- `LockedWithWaiters` elsewhere, so that the load and the exchange in it are seen as one.
pub mod Invariant
pub mod Moves
pub mod Reach
pub mod Parking
mod Tests
use concurrency_course_by_li.Base.{
  ℕ, zero, suc, ◌+◌, ◌-◌, ◌*◌, ◌/◌, ◌%◌, ◌^◌, ◌≤◌, ◌<◌, ◌≡◌, refl, sym, ap, ◌∙◌, subst, ◌≢◌, ◌↔◌,
  ◌⊎◌, inl, inr, Bool, true, false, not, ◌&&◌, ◌||◌, Option, none, some, List, [], ◌∷◌, ◌++◌, map,
  append_assoc, append-nil, arith, ltb, leb, ◌==◌, if◌then◌else◌, ltb→lt, lt→ltb, ==_iff,
  Bool-cases, Option-cases, length, length-append, size_mod, wrap_add, wrap_sub,
}
use concurrency_course_by_li.Threads.{
  update, tally, tally-all, tally-update, le-tally, add-le-tally, tally-eq-zero, of_tally-eq-zero,
  member_of_tally, tally-map, tally-map_le, tally-alone, tally-none, add-tally-le, run_inv_timed,
  World, commit, turn, run, run_inv,
}

-- `enum Status`.
abbrev pub unlocked : ℕ
unlocked = 0

abbrev pub locked_no_waiter : ℕ
locked_no_waiter = 1

abbrev pub locked_with_waiters : ℕ
locked_with_waiters = 2

-- The fibers in the queue are named by their numbers, the oldest first.
pub record Mutex : Type 0 where
  pub st : ℕ
  pub park_q : List ℕ

-- Where a fiber stands: outside, at the exchange of `LockAwaiter`, before its critical section,
-- parked, inside, in `UnlockAwaiter` before its critical section, or before it schedules a fiber;
-- or the program has asked an empty optional for its value.
pub data Pc : Type 0 where
  outside locking enqueuing parked inside unlocking : Pc
  scheduling : (unparked_fiber : ℕ) → Pc
  crashed : Pc

-- The first exchange of `LockAwaiter`.
pub try_lock : Mutex → Mutex × Pc
try_lock m =
    if m.st == unlocked then (record m { st = locked_no_waiter }, inside) else (m, enqueuing)

-- The critical section of `LockAwaiter` for the fiber `i`.
pub enqueue : ℕ → Mutex → Mutex × Pc
enqueue i m =
    if m.st == locked_with_waiters || m.st == locked_no_waiter
    then (record { st = locked_with_waiters; park_q = m.park_q ++ (i ∷ []) }, parked)
    else (m, locking)

-- The exchange of `UnlockAwaiter`.
pub try_unlock : Mutex → Mutex × Pc
try_unlock m =
    if m.st == locked_no_waiter then (record m { st = unlocked }, outside) else (m, unlocking)

abbrev pub is_empty : List ℕ → Bool
is_empty [] = true
is_empty (_ ∷ _) = false

-- The critical section of `UnlockAwaiter`, where the queue is as given.
pub take_fiber : List ℕ → Mutex → Mutex × Pc
take_fiber [] m = (m, crashed)
take_fiber (j ∷ rest) m = (
  record { st = if is_empty rest then locked_no_waiter else locked_with_waiters; park_q = rest },
  scheduling j,
)

-- One step of the fiber `i`.
pub act : ℕ → Mutex → Pc → Mutex × Pc
unfolding try_lock enqueue try_unlock take_fiber
act i m outside = (m, locking)
act i m locking = try_lock m
act i m enqueuing = enqueue i m
act i m parked = (m, parked)
act i m inside = try_unlock m
act i m unlocking = take_fiber m.park_q m
act i m (scheduling j) = (m, outside)
act i m crashed = (m, crashed)

-- `Schedule` of the fiber that was unparked, whose `Lock` returns.
pub schedule : Pc → (ℕ → Pc) → ℕ → Pc
schedule (scheduling j) pc = update pc j inside
schedule _ pc = pc

-- The turn carries no choice.
unfoldable pub step : ℕ → Bool → World Mutex Pc → World Mutex Pc
unfolding act schedule
step i _ w = commit i (record w { pc = schedule (w.pc i) w.pc }) (act i w.mem (w.pc i))

abbrev pub init : World Mutex Pc
init = record { mem = record { st = unlocked; park_q = [] }; pc = λ _. outside }
