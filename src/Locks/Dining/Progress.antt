-- ===== src/Locks/Dining/Progress.antt =====
-- The philosophers of tasks/mutex/dining have their plates for themselves, and never all wait.
use concurrency_course_by_li.Base.{
  ℕ, zero, suc, ◌+◌, ◌≤◌, ◌<◌, ◌≡◌, inl, inr, Bool, true, false, Option, none, some, List, arith,
  ◌==◌, if◌then◌else◌, ==_iff, Bool-cases,
}
use concurrency_course_by_li.Threads.{add-le-tally, member_of_tally, World, run}
use concurrency_course_by_li.Locks.Dining.{
  Table, to_right, first_fork, second_fork, thinking, one_fork, at_left_plate, at_right_plate,
  Philosopher, step, init,
}
use concurrency_course_by_li.Locks.Dining.Forks.{Inv, holds, run-Inv, to_right_cases}

-- The plate that a philosopher accesses.
abbrev pub plate : ℕ → Philosopher → Option ℕ
plate n p = elim p.pc [
  | at_left_plate ↦ some p.seat
  | at_right_plate ↦ some (to_right n p.seat)
  | _ ↦ none
]

-- Whether a philosopher waits for a fork that is locked.
pub is_blocked : Table → Philosopher → Bool
is_blocked t p = elim p.pc [
  | thinking ↦ t.forks (first_fork t.num_seats p.seat)
  | one_fork ↦ t.forks (second_fork t.num_seats p.seat)
  | _ ↦ false
]

-- The forks in the order in which they are taken: 1, 2 and so on, and 0 at the end.
abbrev rank : ℕ → ℕ → ℕ
rank n f = if f == 0 then n else f

plate_held : (n k : ℕ) (p : Philosopher) → plate n p ≡ some k → holds n k p ≡ 1
plate_held n k p e = ground (arith, e)

module _ (n : ℕ) (w : World Table Philosopher) (many : 2 ≤ n) (h : Inv n w) where
  -- If the holder of a fork is blocked, then by a locked fork of a higher rank.
  holder :
      (f i : ℕ)
      → i < n
      → 0 < holds n f (w.pc i)
      → is_blocked w.mem (w.pc i) ≡ true
      → (second_fork n i < n)
        × (rank n f < rank n (second_fork n i))
        × (w.mem.forks (second_fork n i) ≡ true)
  unfolding is_blocked first_fork second_fork
  holder f i lt pos blocked =
      ground (arith, pos, blocked, h.size, h.seated i lt, to_right_cases n i many lt)

  -- So a locked fork leads to a philosopher that can move.
  someone :
      (k f : ℕ)
      → f < n
      → n ≤ k + rank n f
      → w.mem.forks f ≡ true
      → (i : ℕ) × (i < n) × (is_blocked w.mem (w.pc i) ≡ false)
  someone zero f lt near locked =
      let (i, hi, pos) = member_of_tally (holds n f) n w.pc (ground (arith, h.held f, locked)) in
      elim (Bool-cases (is_blocked w.mem (w.pc i))) [
        | inl blocked ↦
            let (lt', higher, locked') = holder f i hi pos blocked in
            absurd (ground (arith, near, lt, lt', higher))
        | inr free ↦ (i, hi, free)
      ]
  someone (suc k) f lt near locked =
      let (i, hi, pos) = member_of_tally (holds n f) n w.pc (ground (arith, h.held f, locked)) in
      elim (Bool-cases (is_blocked w.mem (w.pc i))) [
        | inl blocked ↦
            let (lt', higher, locked') = holder f i hi pos blocked in
            someone k (second_fork n i) lt' (omega (arith, near, higher)) locked'
        | inr free ↦ (i, hi, free)
      ]

  -- A fork that someone waits for is locked.
  wanted :
      (i : ℕ)
      → i < n
      → is_blocked w.mem (w.pc i) ≡ true
      → (f : ℕ) × (f < n) × (w.mem.forks f ≡ true)
  unfolding is_blocked first_fork second_fork
  wanted i lt blocked = elim (Bool-cases (w.mem.forks (first_fork n i))) [
    | inl first ↦ (first_fork n i, ground (arith, to_right_cases n i many lt), first)
    | inr other ↦ (
      second_fork n i,
      ground (arith, to_right_cases n i many lt),
      ground (arith, blocked, other, h.size, h.seated i lt),
    )
  ]

module _ (n : ℕ) (ts : List (ℕ × Bool)) (many : 2 ≤ n) where
  abbrev reached : World Table Philosopher
  reached = run step n ts (init n)

  -- With at least two seats, after every schedule, two philosophers that access the same plate are
  -- the same.
  pub dining_exclusion :
      (i j k : ℕ)
      → i < n
      → j < n
      → plate n (reached.pc i) ≡ some k
      → plate n (reached.pc j) ≡ some k
      → i ≡ j
  dining_exclusion i j k hi hj pi pj = elim (Bool-cases (i == j)) [
    | inl same ↦ (==_iff i j).0 same
    | inr other ↦ ground (
      arith,
      (run-Inv n ts many).held k,
      plate_held n k _ pi,
      plate_held n k _ pj,
      add-le-tally (holds n k) n reached.pc i j,
    )
  ]

  -- With at least two seats, after every schedule, some philosopher does not wait for a locked fork.
  pub dining_deadlock_free : (i : ℕ) × (i < n) × (is_blocked reached.mem (reached.pc i) ≡ false)
  dining_deadlock_free =
      let h = run-Inv n ts many in
      elim (Bool-cases (is_blocked reached.mem (reached.pc 0))) [
        | inr free ↦ (0, omega arith, free)
        | inl blocked ↦
            let (f, lt, locked) = wanted n reached many h 0 (omega arith) blocked in
            someone n reached many h n f lt (omega arith) locked
      ]
