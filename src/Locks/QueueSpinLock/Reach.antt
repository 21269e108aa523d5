-- ===== src/Locks/QueueSpinLock/Reach.antt =====
-- Every turn and every schedule of tasks/mutex/queue/queue_spinlock.hpp keeps the queue as it should be.
use concurrency_course_by_li.Base.{
  ℕ, ◌<◌, ◌≡◌, refl, ap, subst, inl, inr, Bool, true, false, Option, none, some, List, arith,
  ==_iff, Bool-cases,
}
use concurrency_course_by_li.Threads.{tally-eq-zero, World, run, run_inv}
use concurrency_course_by_li.Locks.QueueSpinLock.{
  Lock, Guard, Pc, outside, storing, linking, spinning, inside, releasing, clearing, loading,
  handing, crashed, Turn, same_guard, clear_tail, look_next, load_next, act, touch, step, init,
}
use concurrency_course_by_li.Locks.QueueSpinLock.Invariant.{
  in_line, owns, prev_of, spins, links, waits, loaded, Inv,
}
use concurrency_course_by_li.Locks.QueueSpinLock.Steps.{
  next, own-Inv, enter-Inv, spinning-Inv, store_first-Inv, store_later-Inv, clear-Inv, link-Inv,
  hand-Inv,
}

loaded-look_next : (x : Option ℕ) → loaded (look_next x) x ≡ true
unfolding look_next
loaded-look_next none = refl
loaded-look_next (some q) = refl

loaded-load_next : (x : Option ℕ) → loaded loading x ≡ true → loaded (load_next x) x ≡ true
unfolding load_next
loaded-load_next none e = e
loaded-load_next (some q) e = ground arith

-- Both go on in `Release`.
look_next-owns :
    (o : Bool) (x : Option ℕ)
    → (owns o (look_next x) ≡ true)
      × (prev_of (look_next x) ≡ none)
      × (in_line (look_next x) ≡ true)
      × (spins (look_next x) ≡ false)
      × (links (look_next x) ≡ false)
unfolding look_next
look_next-owns o none = (refl, refl, refl, refl, refl)
look_next-owns o (some q) = (refl, refl, refl, refl, refl)

load_next-owns :
    (o : Bool) (x : Option ℕ)
    → loaded loading x ≡ true
    → (owns o (load_next x) ≡ true)
      × (prev_of (load_next x) ≡ none)
      × (in_line (load_next x) ≡ true)
      × (spins (load_next x) ≡ false)
      × (links (load_next x) ≡ false)
unfolding load_next
load_next-owns o none e = absurd (ground (arith, e))
load_next-owns o (some q) e = (refl, refl, refl, refl, refl)

same_guard_eq : (x : Option ℕ) (i : ℕ) → same_guard x i ≡ true → x ≡ some i
unfolding same_guard
same_guard_eq none i e = absurd (ground arith)
same_guard_eq (some p) i e = ap (λ o. some o) ((==_iff p i).0 e)

module _ (n : ℕ) (w : World Lock Guard) (inv : Inv n w) (i : ℕ) (lt : i < n) where
  turn-Inv : (p : Pc) → (w.pc i).pc ≡ p → Inv n (next n w inv i lt p)
  unfolding act touch clear_tail
  turn-Inv outside e = enter-Inv n w inv i lt e
  turn-Inv (storing none) e = store_first-Inv n w inv i lt e
  turn-Inv (storing (some p)) e = store_later-Inv n w inv i lt p e
  turn-Inv (linking p) e = link-Inv n w inv i lt p e
  turn-Inv spinning e = spinning-Inv n w inv i lt e
  turn-Inv inside e =
      own-Inv n w inv i lt releasing (ground (arith, e)) (ground (arith, e))
        (refl, refl, refl, refl, refl, refl)
  turn-Inv releasing e =
      let x = (w.pc i).next in
      let (a, b, c, d, f) = look_next-owns (w.pc i).is_owner x in
      own-Inv n w inv i lt (look_next x) (ground (arith, e)) (ground (arith, e))
        (a, b, c, d, f, loaded-look_next x)
  turn-Inv clearing e = elim (Bool-cases (same_guard w.mem.tail i)) [
    | inl z ↦ rw z (clear-Inv n w inv i lt e (same_guard_eq _ _ z))
    | inr z ↦ rw z (
        own-Inv n w inv i lt releasing (ground (arith, e)) (ground (arith, e))
          (refl, refl, refl, refl, refl, refl))
  ]
  turn-Inv loading e =
      let x = (w.pc i).next in
      let has_next : loaded loading x ≡ true =
        subst (λ p. loaded p x ≡ true) e (inv.each i lt).seen in
      let (a, b, c, d, f) = load_next-owns (w.pc i).is_owner x has_next in
      own-Inv n w inv i lt (load_next x) (ground (arith, e)) (ground (arith, e))
        (a, b, c, d, f, loaded-load_next x has_next)
  turn-Inv (handing q) e = hand-Inv n w inv i lt q e
  turn-Inv crashed e = absurd (ground (arith, e, (inv.each i lt).seen))

init-Inv : (n : ℕ) → Inv n init
init-Inv n = record {
  owned = λ t. ground (arith, tally-eq-zero (waits t) n init.pc (λ j lt. refl));
  ordered = omega arith;
  free = λ e. refl;
  last = λ p e. absurd (ground (arith, e));
  each = λ i lt. ground arith;
  pairs = λ i j lt. ground arith;
}

-- What holds after every schedule.
abbrev pub reached : ℕ → List (ℕ × Turn) → World Lock Guard
reached n ts = run step n ts init

pub run-Inv : (n : ℕ) (ts : List (ℕ × Turn)) → Inv n (reached n ts)
unfolding step
run-Inv n ts =
    run_inv step n (Inv n) (λ i c w lt inv. turn-Inv n w inv i lt (w.pc i).pc refl) ts init
      (init-Inv n)
