-- ===== src/LockFree/SharedPtr/Lifetime.antt =====
-- The lifetime of the control blocks of tasks/lockfree/shared_ptr/shared_ptr.hpp.
use concurrency_course_by_li.Base.{
  ℕ, zero, suc, ◌+◌, ◌≤◌, ◌<◌, ◌≡◌, refl, sym, subst, ◌↔◌, Bool, true, false, none, List, arith,
  length,
}
use concurrency_course_by_li.Threads.{
  update, tally, tally-eq-zero, others, others_add, others-update, run_inv_timed, World, run,
}
use concurrency_course_by_li.LockFree.SharedPtr.{Heap, idle, Thread, Call, act, step, init, add32}
use concurrency_course_by_li.LockFree.SharedPtr.Balance.{
  points, times, Totals, Sane, Balanced, shift-Balanced, later-Balanced,
}
use concurrency_course_by_li.LockFree.SharedPtr.Shares.{
  held, debt, transient_refs, taken, fits, totals, totals-Sane,
}
use concurrency_course_by_li.LockFree.SharedPtr.Steps.{join, act-Keeps}
use concurrency_course_by_li.LockFree.SharedPtr.Fits.{act-Fits, update-fits}

record Inv (n k : ℕ) (w : World Heap Thread) : Type 0 where
  balanced : Balanced k (totals n w.pc) w.mem
  fit : (i : ℕ) → i < n → fits (w.pc i) ≡ true
  stamp_small : w.mem.stamp ≤ k

-- What all threads but `i` have.
abbrev rest : ℕ → (ℕ → Thread) → ℕ → Totals
rest n f i = record {
  strongs = λ o. others (held o) n f i;
  debts = λ o. others (debt o) n f i;
  transients = λ o. others (transient_refs o) n f i;
  stamps = λ o. others (taken o) n f i;
}

-- The references after thread `i` came to `t`, as its own and the others'.
abbrev Same : Totals → Totals → Type 0
Same x y =
    (o : ℕ)
    → (x.strongs o ≡ y.strongs o)
      × (x.debts o ≡ y.debts o)
      × (x.transients o ≡ y.transients o)
      × (x.stamps o ≡ y.stamps o)

join-rest :
    (n : ℕ) (f : ℕ → Thread) (i : ℕ) (t : Thread)
    → i < n
    → Same (join (rest n f i) t) (totals n (update f i t))
join-rest n f i t lt o = (
  others-update (held o) n f i t lt,
  others-update (debt o) n f i t lt,
  others-update (transient_refs o) n f i t lt,
  others-update (taken o) n f i t lt,
)

rest-join : (n : ℕ) (f : ℕ → Thread) (i : ℕ) → i < n → Same (totals n f) (join (rest n f i) (f i))
rest-join n f i lt o = (
  sym (others_add (held o) n f i lt),
  sym (others_add (debt o) n f i lt),
  sym (others_add (transient_refs o) n f i lt),
  sym (others_add (taken o) n f i lt),
)

shift-Sane : (x y : Totals) → Same x y → Sane x → Sane y
shift-Sane x y same s = record {
  owing = λ o. ground (arith, same o, s.owing o);
  pending = λ o. ground (arith, same o, s.pending o);
}

flip : (x y : Totals) → Same x y → Same y x
flip x y same o = ground (arith, same o)

step-Inv :
    (n k i : ℕ) (c : Call × Bool) (w : World Heap Thread)
    → k < 64000
    → i < n
    → Inv n k w
    → Inv n (suc k) (step i c w)
unfolding step
step-Inv n k i (c, sp) w early lt inv =
    let t = w.pc i in
    let next = act c sp t.pc w.mem t in
    let r = rest n w.pc i in
    let (fit', small') =
      act-Fits k c sp w.mem t.mine t.expected t.pc early (inv.fit i lt) inv.stamp_small in
    let fits' = update-fits n w.pc i next.1 inv.fit fit' in
    let after = join-rest n w.pc i next.1 lt in
    let before = rest-join n w.pc i lt in
    record {
      balanced = shift-Balanced (suc k) _ _ _ after (
          act-Keeps k early r w.mem c sp t.mine t.expected t.pc (inv.fit i lt)
            (shift-Sane _ _ before (totals-Sane n w.pc inv.fit))
            (shift-Sane _ _ (flip (join r next.1) _ after)
              (totals-Sane n (update w.pc i next.1) fits'))
            (shift-Balanced k _ _ _ before inv.balanced));
      fit = fits';
      stamp_small = small';
    }

-- What holds after every schedule of at most 64000 turns.
abbrev reached : ℕ → List (ℕ × (Call × Bool)) → World Heap Thread
reached n ts = run step n ts init

-- A thread before its first call.
abbrev first : Thread
first = record { mine = none; expected = none; pc = idle }

init-Inv : (n : ℕ) → Inv n 0 init
init-Inv n = record {
  balanced = record {
    each = λ o. ground (
      arith,
      tally-eq-zero (held o) n (λ _. first) (λ j lt. refl),
      tally-eq-zero (debt o) n (λ _. first) (λ j lt. refl),
      tally-eq-zero (transient_refs o) n (λ _. first) (λ j lt. refl),
      tally-eq-zero (taken o) n (λ _. first) (λ j lt. refl),
    );
    no_fault = refl;
  };
  fit = λ i lt. refl;
  stamp_small = omega arith;
}

run-Inv :
    (n : ℕ) (ts : List (ℕ × (Call × Bool))) → length ts ≤ 64000 → Inv n (length ts) (reached n ts)
run-Inv n ts short =
    subst (λ k. Inv n k (reached n ts)) (omega arith)
      (run_inv_timed step n (Inv n) 64000 (λ k i c w early lt h. step-Inv n k i c w early lt h)
        (λ k w h. record {
          balanced = later-Balanced k _ w.mem h.balanced;
          fit = h.fit;
          stamp_small = omega (arith, h.stamp_small);
        })
        ts 0 init (omega arith) (init-Inv n))

-- References to the block `o`: of the variables and the calls of `n` threads, and of the cell.
abbrev pub references : ℕ → ℕ → World Heap Thread → ℕ
references n o w = tally (held o) n w.pc + points o w.mem.raw_ptr + tally (transient_refs o) n w.pc

-- References to the block `o` of the variables of `n` threads, and of the cell.
abbrev pub variables : ℕ → ℕ → World Heap Thread → ℕ
variables n o w = tally (λ t. points o t.mine + points o t.expected) n w.pc + points o w.mem.raw_ptr

quiet_held :
    (o : ℕ) (f : ℕ → Thread) (n : ℕ)
    → ((i : ℕ) → i < n → (f i).pc ≡ idle)
    → tally (held o) n f ≡ tally (λ t. points o t.mine + points o t.expected) n f
unfolding tally
quiet_held o f zero q = refl
quiet_held o f (suc n) q =
    let e : held o (f n) ≡ points o (f n).mine + points o (f n).expected =
      rw (q n (omega arith)) (omega arith) in
    omega (arith, e, quiet_held o f n (λ i lt. q i (omega arith)))

module _ (n : ℕ) (ts : List (ℕ × (Call × Bool))) (short : length ts ≤ 64000) where
  -- After every schedule of at most 64000 turns of `n` threads that make, copy and reset shared
  -- pointers and call `Load`, `Store` and `CompareExchangeWeak` of one atomic shared pointer, no counter
  -- was changed of a block that was deleted before, and a block exists exactly when a variable of a
  -- thread, a call under way or the atomic pointer refers to it.
  pub shared_no_use_after_delete :
      (o : ℕ)
      → ((reached n ts).mem.fault ≡ false)
        × ((reached n ts).mem.alive o ≡ true ↔ 0 < references n o (reached n ts))
  shared_no_use_after_delete o =
      let b = (run-Inv n ts short).balanced in ground (arith, b.no_fault, b.each o)

  -- After every such schedule, if no call is under way, the strong count of a block is the number of
  -- variables that point to it, the cell included, its transient count and its stamp in the cell cancel
  -- out, and it exists exactly when one of them points to it.
  pub shared_quiet_counts :
      (o : ℕ)
      → ((i : ℕ) → i < n → ((reached n ts).pc i).pc ≡ idle)
      → ((reached n ts).mem.strong o ≡ variables n o (reached n ts))
        × (add32
              ((reached n ts).mem.transient o)
              (times (reached n ts).mem.stamp o (reached n ts).mem.raw_ptr)
            ≡ 0)
        × ((reached n ts).mem.alive o ≡ true ↔ 0 < variables n o (reached n ts))
  shared_quiet_counts o quiet =
      let w = reached n ts in
      ground (
        arith,
        (run-Inv n ts short).balanced.each o,
        tally-eq-zero (debt o) n w.pc (λ i lt. rw (quiet i lt) refl),
        tally-eq-zero (transient_refs o) n w.pc (λ i lt. rw (quiet i lt) refl),
        tally-eq-zero (taken o) n w.pc (λ i lt. rw (quiet i lt) refl),
        quiet_held o w.pc n quiet,
      )
