-- ===== src/Locks/QueueSpinLock/Order.antt =====
-- What the lock of tasks/mutex/queue/queue_spinlock.hpp promises in every reachable state.
use concurrency_course_by_li.Base.{
  ℕ, ◌+◌, ◌<◌, ◌≡◌, refl, ap, ◌≢◌, ◌⊎◌, inl, inr, Bool, true, false, ◌&&◌, none, some, List, arith,
  ltb, ◌==◌, ==_iff, Bool-cases, Option-cases,
}
use concurrency_course_by_li.Threads.{tally, member_of_tally, World}
use concurrency_course_by_li.Locks.QueueSpinLock.{
  Lock, Guard, Pc, outside, storing, linking, spinning, inside, releasing, clearing, loading,
  handing, crashed, Turn,
}
use concurrency_course_by_li.Locks.QueueSpinLock.Invariant.{
  in_line, owns, prev_of, waits, Inv, in_range, unique,
}
use concurrency_course_by_li.Locks.QueueSpinLock.Reach.{reached, run-Inv}

-- Whether the guard exists that a thread is to write to, if any, and the thread has not used a null
-- pointer.
abbrev pub is_safe : ℕ → (ℕ → Guard) → Pc → Bool
is_safe n f (linking p) = ltb p n && in_line (f p).pc
is_safe n f (handing q) = ltb q n && in_line (f q).pc
is_safe n f crashed = false
is_safe n f _ = true

module _ (n : ℕ) (w : World Lock Guard) (inv : Inv n w) where
  safe_at : (i : ℕ) → i < n → (p : Pc) → (w.pc i).pc ≡ p → is_safe n w.pc p ≡ true
  safe_at i lt (linking p) e =
      let (lt_p, here, tick, no_next) = (inv.pairs i p lt).behind (ground (arith, e)) in
      ground (arith, lt_p, here)
  safe_at i lt (handing q) e =
      let some_next : (w.pc i).next ≡ some q = elim (Option-cases (w.pc i).next) [
        | inl z ↦ absurd (ground (arith, e, z, (inv.each i lt).seen))
        | inr (x, z) ↦ ground (arith, e, z, (inv.each i lt).seen)
      ] in
      let (lt_q, spin, no_owner, tick) = (inv.pairs i q lt).linked (ground (arith, e)) some_next in
      ground (arith, lt_q, spin)
  safe_at i lt crashed e = absurd (ground (arith, e, (inv.each i lt).seen))
  safe_at i lt p e = refl

  -- The first in line has the lock.
  first_owns :
      (j : ℕ)
      → j < n
      → in_line (w.pc j).pc ≡ true
      → (w.pc j).ticket ≡ w.mem.released
      → owns (w.pc j).is_owner (w.pc j).pc ≡ true
  first_owns j lt here first = elim (Bool-cases (owns (w.pc j).is_owner (w.pc j).pc)) [
    | inl e ↦ e
    | inr e ↦ absurd (ground (arith, first, (inv.each j lt).later e here))
  ]

  -- Who waits is about to link its guard, or has done so.
  waiting_links :
      (j k : ℕ)
      → j < n
      → k < n
      → in_line (w.pc j).pc ≡ true
      → (w.pc j).ticket + 1 ≡ (w.pc k).ticket
      → (o : Bool) (p : Pc) → (w.pc k).is_owner ≡ o
      → (w.pc k).pc ≡ p
      → in_line p ≡ true
      → owns o p ≡ false
      → (prev_of (w.pc k).pc ≡ some j) ⊎ ((w.pc j).next ≡ some k)
  waiting_links j k lt lt_k here tick o (storing (some x)) eo e in_k own =
      let (lt_x, here_x, tick_x, no_next) = (inv.pairs k x lt_k).behind (ground (arith, e)) in
      inl (
        rw e
          (ap (λ y. some y) (unique n w inv x j lt_x lt here_x here (omega (arith, tick, tick_x)))))
  waiting_links j k lt lt_k here tick o (linking x) eo e in_k own =
      let (lt_x, here_x, tick_x, no_next) = (inv.pairs k x lt_k).behind (ground (arith, e)) in
      inl (
        rw e
          (ap (λ y. some y) (unique n w inv x j lt_x lt here_x here (omega (arith, tick, tick_x)))))
  waiting_links j k lt lt_k here tick false spinning eo e in_k own =
      inr ((inv.pairs j k lt).follows lt_k here e eo tick)
  waiting_links j k lt lt_k here tick true spinning eo e in_k own = absurd (ground (arith, own))
  waiting_links j k lt lt_k here tick o outside eo e in_k own = absurd (ground (arith, in_k))
  waiting_links j k lt lt_k here tick o (storing none) eo e in_k own = absurd (ground (arith, own))
  waiting_links j k lt lt_k here tick o inside eo e in_k own = absurd (ground (arith, own))
  waiting_links j k lt lt_k here tick o releasing eo e in_k own = absurd (ground (arith, own))
  waiting_links j k lt lt_k here tick o clearing eo e in_k own = absurd (ground (arith, own))
  waiting_links j k lt lt_k here tick o loading eo e in_k own = absurd (ground (arith, own))
  waiting_links j k lt lt_k here tick o (handing q) eo e in_k own = absurd (ground (arith, own))
  waiting_links j k lt lt_k here tick o crashed eo e in_k own =
      absurd (ground (arith, e, (inv.each k lt_k).seen))

  -- The next thread is there if the first guard is not the last.
  next_comes :
      (j p : ℕ)
      → j < n
      → in_line (w.pc j).pc ≡ true
      → (w.pc j).ticket ≡ w.mem.released
      → w.mem.tail ≡ some p
      → (j ≢ p)
      → (k : ℕ) × (k < n) × ((prev_of (w.pc k).pc ≡ some j) ⊎ ((w.pc j).next ≡ some k))
  next_comes j p lt here first z other =
      let (lt_p, here_p, end) = inv.last p z in
      let t = (w.pc j).ticket + 1 in
      let apart : (w.pc j).ticket ≢ (w.pc p).ticket =
        λ same. other (unique n w inv j p lt lt_p here here_p same) in
      let pos : 0 < tally (waits t) n w.pc =
        ground (arith, first, end, apart, inv.owned t, in_range n w inv p lt_p here_p) in
      let (k, lt_k, counted) = member_of_tally (waits t) n w.pc pos in
      let here_k : in_line (w.pc k).pc ≡ true = ground (arith, counted) in
      let tick : t ≡ (w.pc k).ticket = ground (arith, counted) in
      let late : owns (w.pc k).is_owner (w.pc k).pc ≡ false =
        ground (arith, tick, first, (inv.each k lt_k).first) in
      (
        k,
        lt_k,
        waiting_links j k lt lt_k here tick (w.pc k).is_owner (w.pc k).pc refl refl here_k late,
      )

  comes :
      (j : ℕ)
      → j < n
      → in_line (w.pc j).pc ≡ true
      → (w.pc j).ticket ≡ w.mem.released
      → ((w.pc j).next ≢ none)
        ⊎ ((w.mem.tail ≡ some j) ⊎ ((k : ℕ) × (k < n) × (prev_of (w.pc k).pc ≡ some j)))
  comes j lt here first = elim (Option-cases w.mem.tail) [
    | inl z ↦ absurd (ground (arith, inv.free z, in_range n w inv j lt here))
    | inr (p, z) ↦ elim (Bool-cases (j == p)) [
      | inl same ↦ inr (inl (ground (arith, z, same)))
      | inr other ↦
          let (k, lt_k, which) =
            next_comes j p lt here first z (λ same. ground (arith, other, same)) in
          elim which [
            | inl links_it ↦ inr (inr (k, lt_k, links_it))
            | inr has_next ↦ inl (λ e. ground (arith, e, has_next))
          ]
    ]
  ]

module _ (n : ℕ) (ts : List (ℕ × Turn)) where
  abbrev w : World Lock Guard
  w = reached n ts

  abbrev inv : Inv n w
  inv = run-Inv n ts

  -- After every schedule of `n` threads, each with one guard at a time, if a thread is behind
  -- `Acquire`, any thread with a guard is the same, or has exchanged `tail_` later and is not behind
  -- `Acquire`.
  pub queue_lock_order :
      (i j : ℕ)
      → i < n
      → j < n
      → (w.pc i).pc ≡ inside
      → in_line (w.pc j).pc ≡ true
      → (i ≡ j) ⊎ (((w.pc i).ticket < (w.pc j).ticket) × ((w.pc j).pc ≢ inside))
  queue_lock_order i j hi hj e here = elim (Bool-cases (i == j)) [
    | inl same ↦ inl ((==_iff i j).0 same)
    | inr other ↦
        let first_i : (w.pc i).ticket ≡ w.mem.released = ground (arith, e, (inv.each i hi).first) in
        let here_i : in_line (w.pc i).pc ≡ true = ground (arith, e) in
        let apart : (w.pc i).ticket ≢ (w.pc j).ticket =
          λ t. ground (arith, other, unique n w inv i j hi hj here_i here t) in
        inr (
          ground (arith, first_i, apart, in_range n w inv j hj here),
          λ z. apart (ground (arith, z, first_i, (inv.each j hj).first)),
        )
  ]

  -- After every schedule, if a thread is to write to a guard, that guard exists, and no thread has used
  -- a null pointer.
  pub queue_lock_guard_exists : (i : ℕ) → i < n → is_safe n w.pc (w.pc i).pc ≡ true
  queue_lock_guard_exists i hi = safe_at n w inv i hi (w.pc i).pc refl

  -- After every schedule, if a thread has a guard, there is a thread that is behind `Acquire` or is to
  -- leave its loop at its next turn or the one after it; and if that one finds no next guard in
  -- `Release` although its own is not the last, then a thread is about to link one to it.
  pub queue_lock_progress :
      (i : ℕ)
      → i < n
      → in_line (w.pc i).pc ≡ true
      → (j : ℕ) × (j < n)
        × (owns (w.pc j).is_owner (w.pc j).pc ≡ true)
        × (((w.pc j).next ≢ none)
            ⊎ ((w.mem.tail ≡ some j) ⊎ ((k : ℕ) × (k < n) × (prev_of (w.pc k).pc ≡ some j))))
  queue_lock_progress i hi e =
      let pos : 0 < tally (waits w.mem.released) n w.pc =
        ground (arith, inv.owned w.mem.released, in_range n w inv i hi e) in
      let (j, lt, here) = member_of_tally (waits w.mem.released) n w.pc pos in
      let here_j : in_line (w.pc j).pc ≡ true = ground (arith, here) in
      let first_j : (w.pc j).ticket ≡ w.mem.released = ground (arith, here) in
      (j, lt, first_owns n w inv j lt here_j first_j, comes n w inv j lt here_j first_j)
