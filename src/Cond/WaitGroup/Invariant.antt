-- ===== src/Cond/WaitGroup/Invariant.antt =====
-- The counter of tasks/cond/wait_group/wait_group.hpp is the number of calls of `Done` that are
-- still owed, and the flag is set once none is; whoever sets it wakes the sleepers.
use concurrency_course_by_li.Base.{
  ℕ, zero, suc, ◌+◌, ◌≤◌, ◌<◌, ◌≡◌, refl, inl, inr, true, false, List, arith, ltb, if◌then◌else◌,
  Bool-cases,
}
use concurrency_course_by_li.Threads.{
  tally, tally-update, le-tally, tally-eq-zero, tally-map, World, commit, run, run_inv,
}
use concurrency_course_by_li.Futex.{Futex, FutexLaws}
use concurrency_course_by_li.Cond.WaitGroup.{
  checking, parking, init, add, step, wake, WaitGroup, Pc, Choice, owing, opening, storing, waking,
  asleep, returned, is_waking, act, start, word_mod,
}

abbrev pub owes : Pc → ℕ
owes (owing c) = c
owes (opening c) = c
owes (storing c) = c
owes (waking c) = c
owes _ = 0

abbrev pub opens : Pc → ℕ
opens (opening _) = 1
opens _ = 0

abbrev pub stores : Pc → ℕ
stores (storing _) = 1
stores _ = 0

abbrev pub wakes : Pc → ℕ
wakes (waking _) = 1
wakes _ = 0

abbrev pub sleeps : Pc → ℕ
sleeps asleep = 1
sleeps _ = 0

abbrev pub returns : Pc → ℕ
returns returned = 1
returns _ = 0

pub record Inv (n : ℕ) (w : World WaitGroup Pc) : Type 0 where
  pub owed : w.mem.counter ≡ tally owes n w.pc
  pub fits : w.mem.counter < word_mod
  pub flag : w.mem.done ≤ 1
  pub no_opening : tally opens n w.pc ≡ 0
  pub unset : 0 < w.mem.counter → (w.mem.done ≡ 0) × (tally stores n w.pc ≡ 0)
  pub over : w.mem.counter ≡ 0 → tally stores n w.pc + w.mem.done ≡ 1
  pub heard : 0 < tally sleeps n w.pc → w.mem.done ≡ 1 → 0 < tally wakes n w.pc
  pub let_go : 0 < tally returns n w.pc → w.mem.done ≡ 1

module _ (f : Futex) (laws : FutexLaws f) (n i : ℕ) (lt : i < n) where
  -- A step of a thread, apart from whom it wakes.
  act-Inv :
      (c : Choice) (w : World WaitGroup Pc)
      → is_waking (w.pc i) ≡ false
      → Inv n w
      → Inv n (commit i w (act f c w.mem (w.pc i)))
  unfolding act start
  act-Inv c w sober h =
      let p = (act f c w.mem (w.pc i)).1 in
      ground (
        arith,
        h.owed,
        h.fits,
        h.flag,
        h.no_opening,
        h.unset,
        h.over,
        h.heard,
        h.let_go,
        (laws.parks_iff w.mem.done 0).0,
        tally-update owes n w.pc i p lt,
        tally-update opens n w.pc i p lt,
        tally-update stores n w.pc i p lt,
        tally-update wakes n w.pc i p lt,
        tally-update sleeps n w.pc i p lt,
        tally-update returns n w.pc i p lt,
        le-tally owes n w.pc i lt,
        le-tally stores n w.pc i lt,
        le-tally opens n w.pc i lt,
      )

  -- `WakeAll`, and the return from `Done`.
  wake-Inv :
      (calls : ℕ) (w : World WaitGroup Pc)
      → w.pc i ≡ waking calls
      → Inv n w
      → Inv n (commit i (record w { pc = λ k. wake (w.pc k) }) (w.mem, owing calls))
  wake-Inv calls w e h =
      let pc : ℕ → Pc = λ k. wake (w.pc k) in
      ground (
        arith,
        h.owed,
        h.fits,
        h.flag,
        h.no_opening,
        h.unset,
        h.over,
        h.heard,
        h.let_go,
        tally-map owes owes wake (λ p. ground arith) n w.pc,
        tally-map opens opens wake (λ p. ground arith) n w.pc,
        tally-map stores stores wake (λ p. ground arith) n w.pc,
        tally-map returns returns wake (λ p. ground arith) n w.pc,
        tally-eq-zero sleeps n pc (λ k lt. ground arith),
        tally-update owes n pc i (owing calls) lt,
        tally-update opens n pc i (owing calls) lt,
        tally-update stores n pc i (owing calls) lt,
        tally-update sleeps n pc i (owing calls) lt,
        tally-update returns n pc i (owing calls) lt,
      )

  waking_of : (p : Pc) → is_waking p ≡ true → (calls : ℕ) × (p ≡ waking calls)
  waking_of (waking calls) e = (calls, refl)
  waking_of (owing _) e = cc
  waking_of (opening _) e = cc
  waking_of (storing _) e = cc
  waking_of checking e = cc
  waking_of parking e = cc
  waking_of asleep e = cc
  waking_of returned e = cc

  step-Inv : (c : Choice) (w : World WaitGroup Pc) → Inv n w → Inv n (step f i c w)
  unfolding step
  step-Inv c w h = elim (Bool-cases (is_waking (w.pc i))) [
    | inl wk ↦ let (calls, e) = waking_of (w.pc i) wk in rw (wk, e) (wake-Inv calls w e h)
    | inr awake ↦ rw awake (act-Inv c w awake h)
  ]

-- The first `m` of `n` threads owe one call each.
tally-init :
    (count n : ℕ)
    → let t = tally owes n (λ i. owing (if ltb i count then 1 else 0)) in
      (n ≤ count → t ≡ n) × (count ≤ n → t ≡ count)
unfolding tally
tally-init count zero = (λ le. refl, λ le. omega arith)
tally-init count (suc n) =
    let (all, most) = tally-init count n in
    (λ le. ground (arith, all), λ le. ground (arith, all, most))

init-Inv : (count n : ℕ) → 0 < count → count ≤ n → count < word_mod → Inv n (init count)
unfolding add
init-Inv count n pos le small =
    let pc = (init count).pc in
    let (all, most) = tally-init count n in
    ground (
      arith,
      most le,
      tally-eq-zero opens n pc (λ k lt. refl),
      tally-eq-zero stores n pc (λ k lt. refl),
      tally-eq-zero sleeps n pc (λ k lt. refl),
      tally-eq-zero returns n pc (λ k lt. refl),
    )

-- What holds after every schedule.
pub run-Inv :
    (f : Futex) (laws : FutexLaws f) (count n : ℕ)
    → 0 < count
    → count ≤ n
    → count < word_mod
    → (ts : List (ℕ × Choice)) → Inv n (run (step f) n ts (init count))
run-Inv f laws count n pos le small ts =
    run_inv (step f) n (Inv n) (λ i c w lt h. step-Inv f laws n i lt c w h) ts (init count)
      (init-Inv count n pos le small)
