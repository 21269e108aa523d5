-- ===== src/Locks/SpinLock.antt =====
-- tasks/mutex/spinlock: the cell of atomic.hpp and the test-and-set lock of spinlock.hpp.
pub mod Exclusion
mod Tests
use concurrency_course_by_li.Base.{ℕ, ◌==◌, Bool, true, false, if◌then◌else◌}
use concurrency_course_by_li.Threads.{World, commit}

-- `stdlike::Atomic`: one cell, which the operations read and replace in one access.
pub record Atomic : Type 0 where
  pub cell : ℕ

pub store : Atomic → ℕ → Atomic
store a value = record { cell = value }

pub exchange : Atomic → ℕ → Atomic × ℕ
exchange a new_value = (record { cell = new_value }, a.cell)

pub record TasSpinLock : Type 0 where
  pub locked : Atomic

abbrev pub unlocked : TasSpinLock
unlocked = record { locked = record { cell = 0 } }

-- One round of the loop of `Lock`; the result says whether the loop goes on.
pub lock_round : TasSpinLock → TasSpinLock × Bool
unfolding exchange
lock_round l = let (a, old) = exchange l.locked 1 in (record { locked = a }, old == 1)

pub try_lock : TasSpinLock → TasSpinLock × Bool
unfolding exchange
try_lock l = let (a, old) = exchange l.locked 1 in (record { locked = a }, old == 0)

pub unlock : TasSpinLock → TasSpinLock
unfolding store
unlock l = record { locked = store l.locked 0 }

-- Outside, in the loop of `Lock`, or between a successful call and `Unlock`.
pub data Pc : Type 0 where
  outside spinning inside : Pc

-- What a thread outside calls; elsewhere it goes on with the call it is in, or unlocks.
pub data Call : Type 0 where
  call_lock call_try_lock : Call

-- One access of one thread.
pub act : Call → TasSpinLock → Pc → TasSpinLock × Pc
unfolding lock_round try_lock unlock
act call_lock l outside = let (l', again) = lock_round l in (l', if again then spinning else inside)
act call_try_lock l outside = let (l', won) = try_lock l in (l', if won then inside else outside)
act _ l spinning = let (l', again) = lock_round l in (l', if again then spinning else inside)
act _ l inside = (unlock l, outside)

unfoldable pub step : ℕ → Call → World TasSpinLock Pc → World TasSpinLock Pc
unfolding act
step i c w = commit i w (act c w.mem (w.pc i))

abbrev pub init : World TasSpinLock Pc
init = record { mem = unlocked; pc = λ _. outside }

abbrev pub holds : Pc → ℕ
holds inside = 1
holds _ = 0
