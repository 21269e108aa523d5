-- ===== src/Locks/FutexMutex.antt =====
-- tasks/mutex/mutex/mutex.hpp: a mutex in one 32-bit word that sleeps on a futex. The futex is a
-- parameter; a sleeper may also wake up for no reason.
pub mod Invariant
pub mod Safety
mod Tests
use concurrency_course_by_li.Base.{ℕ, Bool, true, false, none, some, ◌==◌, if◌then◌else◌}
use concurrency_course_by_li.Threads.{World, commit, update}
use concurrency_course_by_li.Futex.{Futex}

-- `enum Status`; the word holds one of these.
abbrev pub unlocked : ℕ
unlocked = 0

abbrev pub locked : ℕ
locked = 1

abbrev pub sleeping : ℕ
sleeping = 2

-- The class: its one field `m_`.
pub record Mutex : Type 0 where
  pub m : ℕ

-- The word after the compare-exchange, and the word before it.
pub cmpxchg : ℕ → ℕ → Mutex → Mutex × ℕ
cmpxchg old_st new_st x = (if x.m == old_st then record { m = new_st } else x, x.m)

-- Where a thread stands: outside, at the body of the `do` loop with the local `c`, at the call of
-- `Wait`, asleep in it, at the condition of the loop, inside, or in `Unlock` before `WakeOne`.
pub data Pc : Type 0 where
  outside : Pc
  retrying : (c : ℕ) → Pc
  waiting : Pc
  asleep : Pc
  contending : Pc
  inside : Pc
  waking : Pc

-- The first line of `Lock`.
pub lock_fast : Mutex → Mutex × Pc
unfolding cmpxchg
lock_fast x =
    let (x', c) = cmpxchg unlocked locked x in (x', if c == unlocked then inside else retrying c)

-- The `if` in the body of the loop.
pub lock_body : ℕ → Mutex → Mutex × Pc
unfolding cmpxchg
lock_body c x =
    let (x', old) = cmpxchg locked sleeping x in
    if c == sleeping then (x, waiting) else (x', if old == unlocked then contending else waiting)

-- The condition of the loop.
pub lock_again : Mutex → Mutex × Pc
unfolding cmpxchg
lock_again x =
    let (x', c) = cmpxchg unlocked sleeping x in (x', if c == unlocked then inside else retrying c)

-- The `exchange` of `Unlock`.
pub unlock : Mutex → Mutex × Pc
unlock x = (record { m = unlocked }, if x.m == locked then outside else waking)

abbrev pub is_asleep : Pc → Bool
is_asleep asleep = true
is_asleep _ = false

abbrev pub is_waking : Pc → Bool
is_waking waking = true
is_waking _ = false

module _ (f : Futex) where
  -- One access of one thread. `spurious` is read by a sleeper only: whether it wakes up by itself.
  pub act : Bool → Mutex → Pc → Mutex × Pc
  unfolding lock_fast lock_body lock_again unlock
  act spurious x outside = lock_fast x
  act spurious x (retrying c) = lock_body c x
  act spurious x waiting = (x, if f.parks x.m sleeping then asleep else contending)
  act spurious x asleep = (x, if spurious then contending else asleep)
  act spurious x contending = lock_again x
  act spurious x inside = unlock x
  act spurious x waking = (x, outside)

  -- `WakeOne`: the sleeper that the futex picks goes on to the condition of the loop.
  pub wake_one : ℕ → (ℕ → Pc) → ℕ → Pc
  wake_one n pc = elim (f.wake_one n (λ k. is_asleep (pc k))) [
    | none ↦ pc
    | some j ↦ update pc j contending
  ]

  unfoldable pub step : ℕ → ℕ → Bool → World Mutex Pc → World Mutex Pc
  unfolding act wake_one
  step n i spurious w =
      let woken = if is_waking (w.pc i) then wake_one n w.pc else w.pc in
      commit i (record w { pc = woken }) (act spurious w.mem (w.pc i))

abbrev pub init : World Mutex Pc
init = record { mem = record { m = unlocked }; pc = λ _. outside }
