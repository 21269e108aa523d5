-- ===== src/Cond/Barrier/Reset.antt =====
-- The reset of the counters of tasks/cond/barrier/cyclic_barrier.hpp, and all steps together.
use concurrency_course_by_li.Base.{
  ℕ, ◌<◌, ◌≡◌, inl, inr, Bool, true, false, List, arith, ◌==◌, Bool-cases, size_mod,
}
use concurrency_course_by_li.Threads.{
  tally, tally-all, add-le-tally, tally-eq-zero, World, run, run_inv,
}
use concurrency_course_by_li.Cond.Barrier.{
  CyclicBarrier, Pc, resetting, Thread, signal, reset, act, step, init,
}
use concurrency_course_by_li.Cond.Barrier.Invariant.{
  Inv, Local, part, behind, present, gone, has_lock, init-Inv,
}
use concurrency_course_by_li.Cond.Barrier.Places.{step_other}

-- The reset: every thread has departed, and is to arrive in the next generation.
module _ (n i : ℕ) (pos : 0 < n) (lt : i < n) (c : Bool) (w : World CyclicBarrier Thread)
    (h : Inv n w) (e : (w.pc i).pc ≡ resetting) where
  abbrev next : World CyclicBarrier Thread
  next = step i c w

  record Fresh (t : Thread) : Type 0 where
    to_arrive : behind next.mem.generation t ≡ 1
    not_present : present next.mem.generation t ≡ 0
    not_gone : gone next.mem.generation t ≡ 0
    no_lock : has_lock t ≡ 0
    local : Local next.mem t

  fresh : (j : ℕ) → j < n → Fresh (next.pc j)
  unfolding step act signal reset
  fresh j lt_j = elim (Bool-cases (i == j)) [
    | inl same ↦ ground (arith, e, same, h.counts, h.local i lt, part n i w lt)
    | inr ne ↦ ground (
      arith,
      e,
      ne,
      h.counts,
      h.local i lt,
      h.local j lt_j,
      part n i w lt,
      part n j w lt_j,
      add-le-tally has_lock n w.pc i j,
    )
  ]

  reset-Inv : Inv n next
  unfolding step act signal reset
  reset-Inv =
      let g = next.mem.generation in
      let b : tally (behind g) n next.pc ≡ n =
        tally-all (behind g) n next.pc (λ j lt_j. (fresh j lt_j).to_arrive) in
      let p : tally (present g) n next.pc ≡ 0 =
        tally-eq-zero (present g) n next.pc (λ j lt_j. (fresh j lt_j).not_present) in
      let d : tally (gone g) n next.pc ≡ 0 =
        tally-eq-zero (gone g) n next.pc (λ j lt_j. (fresh j lt_j).not_gone) in
      let l : tally has_lock n next.pc ≡ 0 =
        tally-eq-zero has_lock n next.pc (λ j lt_j. (fresh j lt_j).no_lock) in
      record {
        counts = ground (arith, e, h.counts, h.local i lt, b, p, d, l, pos);
        local = λ j lt_j. (fresh j lt_j).local;
      }

abbrev is_resetting : Pc → Bool
is_resetting resetting = true
is_resetting _ = false

reset_of : (p : Pc) → is_resetting p ≡ true → p ≡ resetting
reset_of p e = ground (arith, e)

no_reset : (p : Pc) → is_resetting p ≡ false → p ≡ resetting → ⊥
no_reset p e r = ground (arith, e, r)

step-Inv :
    (n i : ℕ) (c : Bool) (w : World CyclicBarrier Thread)
    → 0 < n
    → n < size_mod
    → i < n
    → Inv n w
    → Inv n (step i c w)
step-Inv n i c w pos small lt h = elim (Bool-cases (is_resetting (w.pc i).pc)) [
  | inl yes_reset ↦ reset-Inv n i pos lt c w h (reset_of _ yes_reset)
  | inr other ↦ step_other n i lt small c w h (no_reset _ other)
]

-- With as many threads as participants, the invariant holds after every schedule.
pub run-Inv : (n : ℕ) (ts : List (ℕ × Bool)) → 0 < n → n < size_mod → Inv n (run step n ts (init n))
run-Inv n ts pos small =
    run_inv step n (Inv n) (λ i c w lt h. step-Inv n i c w pos small lt h) ts (init n)
      (init-Inv n pos)
