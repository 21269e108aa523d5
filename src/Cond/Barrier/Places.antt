-- ===== src/Cond/Barrier/Places.antt =====
-- Where the threads stand behind a step of tasks/cond/barrier/cyclic_barrier.hpp that is not the
-- reset.
use concurrency_course_by_li.Base.{
  ℕ, ◌<◌, ◌≡◌, refl, inl, inr, Bool, false, arith, ◌==◌, Bool-cases, size_mod,
}
use concurrency_course_by_li.Threads.{add-le-tally, World}
use concurrency_course_by_li.Cond.Barrier.{
  CyclicBarrier, Pc, outside, checking, limit_locking, limit_asleep, arriving, asleep, relocking,
  passing, departing, resetting, Thread, notify, signal, is_next, is_full, arrive, relock, depart,
  leave, act, step,
}
use concurrency_course_by_li.Cond.Barrier.Invariant.{Inv, Local, part, has_lock}
use concurrency_course_by_li.Cond.Barrier.Steps.{count-Counts}

module _ (n i : ℕ) (lt : i < n) (small : n < size_mod) (c : Bool) (w : World CyclicBarrier Thread)
    (h : Inv n w) where
  -- The other threads.
  others-Local :
      (p : Pc)
      → (w.pc i).pc ≡ p
      → (p ≡ resetting → ⊥)
      → (j : ℕ) → j < n
      → (i == j) ≡ false
      → Local (step i c w).mem (notify (signal w.mem (w.pc i).pc) (w.pc j))
  unfolding step act signal is_next is_full arrive relock depart leave
  others-Local outside e other j lt_j ne = ground (
    arith,
    e,
    ne,
    h.counts,
    h.local i lt,
    h.local j lt_j,
    part n i w lt,
    add-le-tally has_lock n w.pc i j,
  )
  others-Local checking e other j lt_j ne = ground (
    arith,
    e,
    ne,
    h.counts,
    h.local i lt,
    h.local j lt_j,
    part n i w lt,
    add-le-tally has_lock n w.pc i j,
  )
  others-Local limit_locking e other j lt_j ne = ground (
    arith,
    e,
    ne,
    h.counts,
    h.local i lt,
    h.local j lt_j,
    part n i w lt,
    add-le-tally has_lock n w.pc i j,
  )
  others-Local limit_asleep e other j lt_j ne = ground (
    arith,
    e,
    ne,
    h.counts,
    h.local i lt,
    h.local j lt_j,
    part n i w lt,
    add-le-tally has_lock n w.pc i j,
  )
  others-Local arriving e other j lt_j ne = ground (
    arith,
    e,
    ne,
    h.counts,
    h.local i lt,
    h.local j lt_j,
    part n i w lt,
    add-le-tally has_lock n w.pc i j,
  )
  others-Local asleep e other j lt_j ne = ground (
    arith,
    e,
    ne,
    h.counts,
    h.local i lt,
    h.local j lt_j,
    part n i w lt,
    add-le-tally has_lock n w.pc i j,
  )
  others-Local relocking e other j lt_j ne = ground (
    arith,
    e,
    ne,
    h.counts,
    h.local i lt,
    h.local j lt_j,
    part n i w lt,
    add-le-tally has_lock n w.pc i j,
  )
  others-Local passing e other j lt_j ne = ground (
    arith,
    e,
    ne,
    h.counts,
    h.local i lt,
    h.local j lt_j,
    part n i w lt,
    add-le-tally has_lock n w.pc i j,
  )
  others-Local departing e other j lt_j ne = ground (
    arith,
    e,
    ne,
    h.counts,
    h.local i lt,
    h.local j lt_j,
    part n i w lt,
    add-le-tally has_lock n w.pc i j,
  )
  others-Local resetting e other j lt_j ne = absurd (other refl)

  -- The thread that moves.
  moved-Local :
      (p : Pc)
      → (w.pc i).pc ≡ p
      → (p ≡ resetting → ⊥)
      → Local (step i c w).mem (act c (w.pc i).pc w.mem (w.pc i)).1
  unfolding step act signal is_next is_full arrive relock depart leave
  moved-Local outside e other = ground (arith, e, h.counts, h.local i lt, part n i w lt)
  moved-Local checking e other = ground (arith, e, h.counts, h.local i lt, part n i w lt)
  moved-Local limit_locking e other = ground (arith, e, h.counts, h.local i lt, part n i w lt)
  moved-Local limit_asleep e other = ground (arith, e, h.counts, h.local i lt, part n i w lt)
  moved-Local arriving e other = ground (arith, e, h.counts, h.local i lt, part n i w lt)
  moved-Local asleep e other = ground (arith, e, h.counts, h.local i lt, part n i w lt)
  moved-Local relocking e other = ground (arith, e, h.counts, h.local i lt, part n i w lt)
  moved-Local passing e other = ground (arith, e, h.counts, h.local i lt, part n i w lt)
  moved-Local departing e other = ground (arith, e, h.counts, h.local i lt, part n i w lt)
  moved-Local resetting e other = absurd (other refl)

  pub step_other : ((w.pc i).pc ≡ resetting → ⊥) → Inv n (step i c w)
  unfolding step
  step_other other = record {
    counts = count-Counts n i lt small c w h _ refl other;
    local = λ j lt_j. elim (Bool-cases (i == j)) [
      | inl same ↦ rw same (moved-Local _ refl other)
      | inr ne ↦ rw ne (others-Local _ refl other j lt_j ne)
    ];
  }
