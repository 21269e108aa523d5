-- ===== src/Locks/FutexMutex/Invariant.antt =====
-- Who is inside, who sleeps and who will wake a sleeper of the futex mutex
-- (tasks/mutex/mutex/mutex.hpp).
use concurrency_course_by_li.Base.{
  ℕ, ◌≤◌, ◌<◌, ◌≡◌, ◌≢◌, inl, inr, Bool, false, List, arith, Bool-cases, Option-cases,
}
use concurrency_course_by_li.Threads.{
  update, tally, tally-update, tally-eq-zero, World, run, run_inv,
}
use concurrency_course_by_li.Futex.{Futex, FutexLaws}
use concurrency_course_by_li.Locks.FutexMutex.{
  Mutex, Pc, outside, retrying, waiting, asleep, contending, inside, waking, is_asleep, is_waking,
  act, wake_one, step, init, unlocked, sleeping,
}

abbrev pub holds : Pc → ℕ
holds inside = 1
holds _ = 0

abbrev pub sleeps : Pc → ℕ
sleeps asleep = 1
sleeps _ = 0

-- On the way through the slow path of `Lock`, or before `WakeOne`.
abbrev pub awake : Pc → ℕ
awake (retrying _) = 1
awake waiting = 1
awake contending = 1
awake waking = 1
awake _ = 0

pub record Inv (n : ℕ) (x : Mutex) (pc : ℕ → Pc) : Type 0 where
  pub range : x.m ≤ sleeping
  pub free : x.m ≡ unlocked → tally holds n pc ≡ 0
  pub taken : x.m ≢ unlocked → tally holds n pc ≡ 1
  pub no_lost_wakeup : 0 < tally sleeps n pc → x.m ≢ sleeping → 0 < tally awake n pc

module _ (f : Futex) (laws : FutexLaws f) (n : ℕ) where
  act-Inv :
      (i : ℕ) (s : Bool) (x : Mutex) (pc : ℕ → Pc)
      → i < n
      → is_waking (pc i) ≡ false
      → Inv n x pc
      → let (x', p') = act f s x (pc i) in Inv n x' (update pc i p')
  unfolding act
  act-Inv i s x pc lt nw inv = ground (
    arith,
    laws.parks_iff x.m sleeping,
    tally-update holds n pc i (act f s x (pc i)).1,
    tally-update sleeps n pc i (act f s x (pc i)).1,
    tally-update awake n pc i (act f s x (pc i)).1,
  )

  -- `WakeOne` with a sleeper: he wakes up, and the thread that wakes him leaves.
  woken-Inv :
      (i j : ℕ) (x : Mutex) (pc : ℕ → Pc)
      → i < n
      → j < n
      → pc i ≡ waking
      → pc j ≡ asleep
      → Inv n x pc
      → Inv n x (update (update pc j contending) i outside)
  woken-Inv i j x pc hi hj wi sj inv = ground (
    arith,
    tally-update holds n pc j contending,
    tally-update sleeps n pc j contending,
    tally-update awake n pc j contending,
    tally-update holds n (update pc j contending) i outside,
    tally-update sleeps n (update pc j contending) i outside,
    tally-update awake n (update pc j contending) i outside,
  )

  not_woken-Inv :
      (i : ℕ) (x : Mutex) (pc : ℕ → Pc)
      → i < n
      → pc i ≡ waking
      → ((k : ℕ) → k < n → is_asleep (pc k) ≡ false)
      → Inv n x pc
      → Inv n x (update pc i outside)
  not_woken-Inv i x pc hi wi none_asleep inv = ground (
    arith,
    quiet,
    tally-update holds n pc i outside,
    tally-update sleeps n pc i outside,
    tally-update awake n pc i outside,
  )
    where
      quiet : tally sleeps n pc ≡ 0
      quiet = tally-eq-zero sleeps n pc (λ k lt. ground (arith, none_asleep k))

  wake-Inv :
      (i : ℕ) (x : Mutex) (pc : ℕ → Pc)
      → i < n
      → pc i ≡ waking
      → Inv n x pc
      → Inv n x (update (wake_one f n pc) i outside)
  unfolding wake_one
  wake-Inv i x pc lt wi inv = elim (Option-cases (f.wake_one n (λ k. is_asleep (pc k)))) [
    | inl e ↦ rw (e, wake_one) (not_woken-Inv i x pc lt wi (laws.wakes.picks_none n _ e) inv)
    | inr (j, e) ↦
        let (hj, sj) = laws.wakes.picks_some n _ j e in
        rw (e, wake_one) (woken-Inv i j x pc lt hj wi (ground arith) inv)
  ]

  step-Inv :
      (i : ℕ) (s : Bool) (w : World Mutex Pc)
      → i < n
      → Inv n w.mem w.pc
      → Inv n (step f n i s w).mem (step f n i s w).pc
  unfolding step
  step-Inv i s w lt inv = elim (Bool-cases (is_waking (w.pc i))) [
    | inl wi ↦ let e : w.pc i ≡ waking = ground arith in rw (wi, e) (wake-Inv i w.mem w.pc lt e inv)
    | inr nw ↦ rw nw (act-Inv i s w.mem w.pc lt nw inv)
  ]

  pub run-Inv : (ts : List (ℕ × Bool)) → let w = run (step f n) n ts init in Inv n w.mem w.pc
  run-Inv ts = run_inv (step f n) n (λ w. Inv n w.mem w.pc) step-Inv ts init start
    where
      idle : (w : Pc → ℕ) → w outside ≡ 0 → tally w n (λ _. outside) ≡ 0
      idle w h = tally-eq-zero w n _ (λ _ _. h)

      start : Inv n init.mem init.pc
      start =
          omega
            (arith, idle holds (omega arith), idle sleeps (omega arith), idle awake (omega arith))
