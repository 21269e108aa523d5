-- ===== src/Locks/Dining/Forks.antt =====
-- Each locked fork of tasks/mutex/dining is held by one philosopher, and so each plate is accessed by
-- one at a time.
use concurrency_course_by_li.Base.{
  ℕ, ◌+◌, ◌≤◌, ◌<◌, ◌≡◌, refl, ◌⊎◌, inl, inr, Bool, ◌||◌, List, arith, ltb, ◌==◌, if◌then◌else◌,
  ltb→lt, Bool-cases,
}
use concurrency_course_by_li.Threads.{
  tally, tally-update, le-tally, tally-eq-zero, World, commit, run, run_inv,
}
use native.Mathlib.Nat.{mod-eq_of_lt, mod_self}
use concurrency_course_by_li.Locks.Dining.{
  Table, to_right, first_fork, second_fork, Pc, thinking, one_fork, at_left_plate, at_right_plate,
  two_forks, left_only, Philosopher, lock, unlock, act, step, init,
}

-- The neighbour is at the next seat, or at seat 0.
pub to_right_cases :
    (n s : ℕ)
    → 2 ≤ n
    → s < n
    → ((s + 1 < n) × (to_right n s ≡ s + 1)) ⊎ ((s + 1 ≡ n) × (to_right n s ≡ 0))
unfolding to_right
to_right_cases n s many lt = elim (Bool-cases (ltb (s + 1) n)) [
  | inl below ↦ inl (ltb→lt _ _ below, mod-eq_of_lt (ltb→lt _ _ below))
  | inr last ↦ let e : s + 1 ≡ n = ground arith in inr (e, rw e (mod_self n))
]

-- Whether a philosopher holds a fork.
abbrev pub holds : ℕ → ℕ → Philosopher → ℕ
holds n f p = elim p.pc [
  | thinking ↦ 0
  | one_fork ↦ if f == first_fork n p.seat then 1 else 0
  | left_only ↦ if f == p.seat then 1 else 0
  | _ ↦ if (f == p.seat) || (f == to_right n p.seat) then 1 else 0
]

pub record Inv (n : ℕ) (w : World Table Philosopher) : Type 0 where
  pub size : w.mem.num_seats ≡ n
  pub seated : (i : ℕ) → i < n → (w.pc i).seat ≡ i
  pub held : (f : ℕ) → tally (holds n f) n w.pc ≡ (if w.mem.forks f then 1 else 0)

module _ (n i : ℕ) (many : 2 ≤ n) (lt : i < n) where
  act-Inv :
      (pc : Pc) (w : World Table Philosopher)
      → (w.pc i).pc ≡ pc
      → Inv n w
      → Inv n (commit i w (act pc w.mem (w.pc i)))
  unfolding act lock unlock first_fork second_fork
  act-Inv thinking w e h = record {
    size = ground (arith, h.size);
    seated = λ j lt_j. ground (arith, h.seated j lt_j, h.seated i lt);
    held = λ f. ground (
      arith,
      h.held f,
      h.size,
      tally-update (holds n f) n w.pc i (act thinking w.mem (w.pc i)).1 lt,
    );
  }
  act-Inv one_fork w e h = record {
    size = ground (arith, h.size);
    seated = λ j lt_j. ground (arith, h.seated j lt_j, h.seated i lt);
    held = λ f. ground (
      arith,
      e,
      h.held f,
      h.size,
      h.seated i lt,
      to_right_cases n i many lt,
      tally-update (holds n f) n w.pc i (act one_fork w.mem (w.pc i)).1 lt,
      le-tally (holds n f) n w.pc i lt,
    );
  }
  act-Inv at_left_plate w e h = record {
    size = ground (arith, h.size);
    seated = λ j lt_j. ground (arith, h.seated j lt_j, h.seated i lt);
    held = λ f. ground (
      arith,
      e,
      h.held f,
      h.size,
      h.seated i lt,
      to_right_cases n i many lt,
      tally-update (holds n f) n w.pc i (act at_left_plate w.mem (w.pc i)).1 lt,
      le-tally (holds n f) n w.pc i lt,
    );
  }
  act-Inv at_right_plate w e h = record {
    size = ground (arith, h.size);
    seated = λ j lt_j. ground (arith, h.seated j lt_j, h.seated i lt);
    held = λ f. ground (
      arith,
      e,
      h.held f,
      h.size,
      h.seated i lt,
      to_right_cases n i many lt,
      tally-update (holds n f) n w.pc i (act at_right_plate w.mem (w.pc i)).1 lt,
      le-tally (holds n f) n w.pc i lt,
    );
  }
  act-Inv two_forks w e h = record {
    size = ground (arith, h.size);
    seated = λ j lt_j. ground (arith, h.seated j lt_j, h.seated i lt);
    held = λ f. ground (
      arith,
      e,
      h.held f,
      h.size,
      h.seated i lt,
      to_right_cases n i many lt,
      tally-update (holds n f) n w.pc i (act two_forks w.mem (w.pc i)).1 lt,
      le-tally (holds n f) n w.pc i lt,
    );
  }
  act-Inv left_only w e h = record {
    size = ground (arith, h.size);
    seated = λ j lt_j. ground (arith, h.seated j lt_j, h.seated i lt);
    held = λ f. ground (
      arith,
      e,
      h.held f,
      h.size,
      h.seated i lt,
      to_right_cases n i many lt,
      tally-update (holds n f) n w.pc i (act left_only w.mem (w.pc i)).1 lt,
      le-tally (holds n f) n w.pc i lt,
    );
  }

step-Inv :
    (n i : ℕ) (c : Bool) (w : World Table Philosopher)
    → 2 ≤ n
    → i < n
    → Inv n w
    → Inv n (step i c w)
unfolding step
step-Inv n i c w many lt h = act-Inv n i many lt (w.pc i).pc w refl h

pub run-Inv : (n : ℕ) (ts : List (ℕ × Bool)) → 2 ≤ n → Inv n (run step n ts (init n))
run-Inv n ts many =
    run_inv step n (Inv n) (λ i c w lt h. step-Inv n i c w many lt h) ts (init n)
      (record {
        size = refl;
        seated = λ i lt. refl;
        held = λ f. tally-eq-zero (holds n f) n (init n).pc (λ i lt. refl);
      })
