-- ===== src/Exec/BlockingQueue/Wakeups.antt =====
-- No wakeup of the blocking queue (tasks/tasks/thread-pool/tp/queue.hpp) is lost.
use concurrency_course_by_li.Base.{
  ℕ, ◌+◌, ◌≤◌, ◌<◌, ◌≡◌, refl, ◌≢◌, ◌⊎◌, inl, inr, Bool, true, false, Option, List, [], ◌∷◌, arith,
  Bool-cases, Option-cases, length, length-append,
}
use concurrency_course_by_li.Threads.{
  update, tally, tally-update, le-tally, tally-eq-zero, member_of_tally, World, run, run_inv,
}
use concurrency_course_by_li.Futex.{PicksSleeper}
use concurrency_course_by_li.Exec.BlockingQueue.{
  init, is_asleep, put_returned, notify, notify_one, step, nothing, wake, Queue, Pc, outside,
  notifying, asleep, woken, closing, Call, call_put, put_section, pop_front, take_section,
  close_section, act,
}

module _ {T : Type 0} where
  abbrev sleeps : Pc T → ℕ
  sleeps asleep = 1
  sleeps _ = 0

  -- A thread that will look at the queue, or make another do so.
  abbrev stirs : Pc T → ℕ
  stirs notifying = 1
  stirs woken = 1
  stirs _ = 0

  abbrev closes : Pc T → ℕ
  closes closing = 1
  closes _ = 0

  record Inv (n : ℕ) (q : Queue T) (pc : ℕ → Pc T) : Type 0 where
    served : 0 < tally sleeps n pc → q.is_opened ≡ true → length q.queue ≤ tally stirs n pc
    told : 0 < tally sleeps n pc → q.is_opened ≡ false → 0 < tally closes n pc

  module _ (n : ℕ) where
    -- Thread `i` goes from `p` to `p'` over the family `f`: how the counts change.
    record Moved (i : ℕ) (f : ℕ → Pc T) (p p' : Pc T) : Type 0 where
      sleeps_moves : tally sleeps n (update f i p') + sleeps p ≡ tally sleeps n f + sleeps p'
      stirs_moves : tally stirs n (update f i p') + stirs p ≡ tally stirs n f + stirs p'
      closes_moves : tally closes n (update f i p') + closes p ≡ tally closes n f + closes p'

    moved : (i : ℕ) (f : ℕ → Pc T) (p' : Pc T) → i < n → Moved i f (f i) p'
    moved i f p' lt = record {
      sleeps_moves = tally-update sleeps n f i p' lt;
      stirs_moves = tally-update stirs n f i p' lt;
      closes_moves = tally-update closes n f i p' lt;
    }

    -- A step that notifies nobody.
    act-Inv :
        (i : ℕ) (c : Call T) (q : Queue T) (pc : ℕ → Pc T) (p : Pc T)
        → p ≢ notifying
        → p ≢ closing
        → Moved i pc p (act c q p).1
        → Inv n q pc
        → Inv n (act c q p).0 (update pc i (act c q p).1)
    unfolding act put_section take_section close_section pop_front
    act-Inv i (call_put v) q pc (outside _) _ _ m inv =
        ground (arith, m, inv, length-append q.queue (v ∷ []))
    act-Inv i c q pc p a b m inv = ground (arith, m, inv)

    closing-Inv :
        (i : ℕ) (q : Queue T) (pc : ℕ → Pc T)
        → i < n
        → pc i ≡ closing
        → Inv n q (update (λ k. wake (pc k)) i (outside nothing))
    closing-Inv i q pc lt e = ground (
      arith,
      moved i (λ k. wake (pc k)) (outside nothing) lt,
      tally-eq-zero sleeps n (λ k. wake (pc k)) (λ k _. ground arith),
    )

    module _ (pick : ℕ → (ℕ → Bool) → Option ℕ) (law : PicksSleeper pick) where
      notifying-Inv :
          (i : ℕ) (q : Queue T) (pc : ℕ → Pc T)
          → i < n
          → pc i ≡ notifying
          → Inv n q pc
          → Inv n q (update (notify_one pick n pc) i (outside (put_returned true)))
      unfolding notify_one
      notifying-Inv i q pc lt e inv = elim (Option-cases (pick n (λ k. is_asleep (pc k)))) [
        | inl nobody ↦
            rw (nobody, notify_one)
              (ground (
                arith,
                inv,
                moved i pc (outside (put_returned true)) lt,
                tally-eq-zero sleeps n pc
                    (λ k below. let h = law.picks_none n _ nobody k below in ground arith),
              ))
        | inr (j, found) ↦
            let (hj, sj) = law.picks_some n _ j found in
            let ej : pc j ≡ asleep = ground arith in
            rw (found, notify_one)
              (ground (
                arith,
                inv,
                moved j pc woken hj,
                moved i (update pc j woken) (outside (put_returned true)) lt,
              ))
      ]

      turn-Inv :
          (i : ℕ) (c : Call T) (q : Queue T) (pc : ℕ → Pc T)
          → i < n
          → Inv n q pc
          → (p : Pc T) → pc i ≡ p
          → Inv n (act c q p).0 (update (notify pick n p pc) i (act c q p).1)
      unfolding act notify
      turn-Inv i c q pc lt inv (outside r) e =
          act-Inv i c q pc (outside r) (λ h. cc) (λ h. cc) (rw (← e) (moved i pc _ lt)) inv
      turn-Inv i c q pc lt inv notifying e = notifying-Inv i q pc lt e inv
      turn-Inv i c q pc lt inv asleep e =
          act-Inv i c q pc asleep (λ h. cc) (λ h. cc) (rw (← e) (moved i pc _ lt)) inv
      turn-Inv i c q pc lt inv woken e =
          act-Inv i c q pc woken (λ h. cc) (λ h. cc) (rw (← e) (moved i pc _ lt)) inv
      turn-Inv i c q pc lt inv closing e = closing-Inv i q pc lt e

      step-Inv :
          (i : ℕ) (c : Call T) (w : World (Queue T) (Pc T))
          → i < n
          → Inv n w.mem w.pc
          → Inv n (step pick n i c w).mem (step pick n i c w).pc
      unfolding step
      step-Inv i c w lt inv = turn-Inv i c w.mem w.pc lt inv (w.pc i) refl

module _ {T : Type 0} (pick : ℕ → (ℕ → Bool) → Option ℕ) (law : PicksSleeper pick) (n : ℕ) where
  run-Inv : (ts : List (ℕ × Call T)) → let w = run (step pick n) n ts init in Inv n w.mem w.pc
  run-Inv ts =
      run_inv (step pick n) n (λ w. Inv n w.mem w.pc) (step-Inv n pick law) ts init
        (let quiet : tally (sleeps {T = T}) n (λ _. outside nothing) ≡ 0 =
            tally-eq-zero sleeps n _ (λ _ _. omega arith) in
          ground (arith, quiet))

  module _ (ts : List (ℕ × Call T)) where
    abbrev reached : World (Queue T) (Pc T)
    reached = run (step pick n) n ts init

    -- No wakeup is lost: after every schedule, if a thread sleeps while the queue holds a value or
    -- is closed, then some thread is about to notify the sleepers, or was woken to look at the
    -- queue.
    pub blocking_queue_no_lost_wakeup :
        (i : ℕ)
        → i < n
        → reached.pc i ≡ asleep
        → (reached.mem.queue ≢ []) ⊎ (reached.mem.is_opened ≡ false)
        → (j : ℕ) × (j < n)
          × ((reached.pc j ≡ notifying) ⊎ (reached.pc j ≡ woken) ⊎ (reached.pc j ≡ closing))
    blocking_queue_no_lost_wakeup i lt e busy = elim (Bool-cases reached.mem.is_opened) [
      | inl is_open ↦
          let (j, hj, pos) =
            member_of_tally stirs n reached.pc
              (ground (arith, run-Inv ts, le-tally sleeps n reached.pc i, busy)) in
          (j, hj, ground arith)
      | inr closed ↦
          let (j, hj, pos) =
            member_of_tally closes n reached.pc
              (ground (arith, run-Inv ts, le-tally sleeps n reached.pc i)) in
          (j, hj, ground arith)
    ]
