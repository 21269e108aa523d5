-- ===== src/Cond/Barrier/Steps.antt =====
-- Every step of tasks/cond/barrier/cyclic_barrier.hpp keeps the invariant.
use concurrency_course_by_li.Base.{ℕ, ◌+◌, ◌<◌, ◌≡◌, refl, Bool, arith, size_mod}
use concurrency_course_by_li.Threads.{update, tally, tally-update, tally-map, World}
use concurrency_course_by_li.Cond.Barrier.{
  CyclicBarrier, Pc, outside, checking, limit_locking, limit_asleep, arriving, asleep, relocking,
  passing, departing, resetting, Thread, Signal, notify, signal, is_next, is_full, arrive, relock,
  depart, leave, act, step,
}
use concurrency_course_by_li.Cond.Barrier.Invariant.{
  Inv, Counts, part, behind, present, gone, has_lock, notify-behind, notify-present, notify-gone,
  notify-has_lock,
}

-- How a step of thread `i` to `t` changes a count, if it notifies `s`.
module _ (n i : ℕ) (lt : i < n) (s : Signal) (pc : ℕ → Thread) (t : Thread) where
  abbrev after : ℕ → Thread
  after = update (λ k. notify s (pc k)) i t

  count :
      (v : Thread → ℕ)
      → ((u : Thread) → v (notify s u) ≡ v u)
      → tally v n after + v (pc i) ≡ tally v n pc + v t
  count v same = omega (
    arith,
    tally-update v n (λ k. notify s (pc k)) i t lt,
    tally-map v v (λ u. notify s u) same n pc,
    same (pc i),
  )

module _ (n i : ℕ) (lt : i < n) (small : n < size_mod) (c : Bool) (w : World CyclicBarrier Thread)
    (h : Inv n w) where
  abbrev pub moved : Thread
  moved = (act c (w.pc i).pc w.mem (w.pc i)).1

  abbrev pub told : Signal
  told = signal w.mem (w.pc i).pc

  count_behind :
      tally (behind w.mem.generation) n (after n i lt told w.pc moved)
        + behind w.mem.generation (w.pc i)
      ≡ tally (behind w.mem.generation) n w.pc + behind w.mem.generation moved
  count_behind =
      count n i lt told w.pc moved (behind w.mem.generation) (notify-behind w.mem.generation told)

  count_present :
      tally (present w.mem.generation) n (after n i lt told w.pc moved)
        + present w.mem.generation (w.pc i)
      ≡ tally (present w.mem.generation) n w.pc + present w.mem.generation moved
  count_present =
      count n i lt told w.pc moved (present w.mem.generation) (notify-present w.mem.generation told)

  count_gone :
      tally (gone w.mem.generation) n (after n i lt told w.pc moved)
        + gone w.mem.generation (w.pc i)
      ≡ tally (gone w.mem.generation) n w.pc + gone w.mem.generation moved
  count_gone =
      count n i lt told w.pc moved (gone w.mem.generation) (notify-gone w.mem.generation told)

  count_lock :
      tally has_lock n (after n i lt told w.pc moved) + has_lock (w.pc i)
      ≡ tally has_lock n w.pc + has_lock moved
  count_lock = count n i lt told w.pc moved has_lock (λ u. notify-has_lock w.mem.generation told u)

  -- All steps but the reset.
  pub count-Counts : (p : Pc) → (w.pc i).pc ≡ p → (p ≡ resetting → ⊥) → Counts n (step i c w)
  unfolding step act signal is_next is_full arrive relock depart leave
  count-Counts outside e other = ground (
    arith,
    e,
    h.counts,
    h.local i lt,
    part n i w lt,
    count_behind,
    count_present,
    count_gone,
    count_lock,
  )
  count-Counts checking e other = ground (
    arith,
    e,
    h.counts,
    h.local i lt,
    part n i w lt,
    count_behind,
    count_present,
    count_gone,
    count_lock,
  )
  count-Counts limit_locking e other = ground (
    arith,
    e,
    h.counts,
    h.local i lt,
    part n i w lt,
    count_behind,
    count_present,
    count_gone,
    count_lock,
  )
  count-Counts limit_asleep e other = ground (
    arith,
    e,
    h.counts,
    h.local i lt,
    part n i w lt,
    count_behind,
    count_present,
    count_gone,
    count_lock,
  )
  count-Counts arriving e other = ground (
    arith,
    e,
    h.counts,
    h.local i lt,
    part n i w lt,
    count_behind,
    count_present,
    count_gone,
    count_lock,
  )
  count-Counts asleep e other = ground (
    arith,
    e,
    h.counts,
    h.local i lt,
    part n i w lt,
    count_behind,
    count_present,
    count_gone,
    count_lock,
  )
  count-Counts relocking e other = ground (
    arith,
    e,
    h.counts,
    h.local i lt,
    part n i w lt,
    count_behind,
    count_present,
    count_gone,
    count_lock,
  )
  count-Counts passing e other = ground (
    arith,
    e,
    h.counts,
    h.local i lt,
    part n i w lt,
    count_behind,
    count_present,
    count_gone,
    count_lock,
  )
  count-Counts departing e other = ground (
    arith,
    e,
    h.counts,
    h.local i lt,
    part n i w lt,
    count_behind,
    count_present,
    count_gone,
    count_lock,
  )
  count-Counts resetting e other = absurd (other refl)
