-- ===== src/Locks/QueueSpinLock/Invariant.antt =====
-- How the guards of tasks/mutex/queue/queue_spinlock.hpp stand in the queue.
use concurrency_course_by_li.Base.{
  ℕ, ◌+◌, ◌≤◌, ◌<◌, ◌≡◌, inl, inr, Bool, true, false, ◌&&◌, Option, none, some, arith, ltb, leb,
  ◌==◌, if◌then◌else◌, ==_iff, Bool-cases, Option-cases,
}
use concurrency_course_by_li.Threads.{tally, le-tally, add-le-tally, World}
use concurrency_course_by_li.Locks.QueueSpinLock.{
  Lock, Guard, Pc, outside, storing, linking, spinning, loading, handing, crashed,
}

-- Whether the guard exists.
abbrev pub in_line : Pc → Bool
in_line outside = false
in_line _ = true

-- Whether the thread has the lock, or has it at its next turns.
abbrev pub owns : Bool → Pc → Bool
owns o outside = false
owns o (storing none) = true
owns o (storing (some p)) = false
owns o (linking p) = false
owns o spinning = o
owns o crashed = false
owns o _ = true

-- The guard that the thread is to link its own to.
abbrev pub prev_of : Pc → Option ℕ
prev_of (storing p) = p
prev_of (linking p) = some p
prev_of _ = none

abbrev pub spins : Pc → Bool
spins spinning = true
spins _ = false

abbrev pub waits : ℕ → Guard → ℕ
waits t g = if in_line g.pc && g.ticket == t then 1 else 0

abbrev pub issued : ℕ → Lock → ℕ
issued t l = if leb l.released t && ltb t l.exchanged then 1 else 0

-- The thread has loaded `next_`, and what it has found there.
abbrev pub loaded : Pc → Option ℕ → Bool
loaded loading none = false
loaded (handing q) none = false
loaded (handing q) (some x) = x == q
loaded crashed next = false
loaded _ next = true

abbrev pub links : Pc → Bool
links (linking p) = true
links _ = false

-- The guard of thread `i`.
pub record Each (n : ℕ) (w : World Lock Guard) (i : ℕ) : Type 0 where
  pub first : owns (w.pc i).is_owner (w.pc i).pc ≡ true → (w.pc i).ticket ≡ w.mem.released
  pub seen : loaded (w.pc i).pc (w.pc i).next ≡ true
  pub later :
      owns (w.pc i).is_owner (w.pc i).pc ≡ false
      → in_line (w.pc i).pc ≡ true
      → w.mem.released < (w.pc i).ticket
  pub not_yet : links (w.pc i).pc ≡ true → (w.pc i).is_owner ≡ false

-- The guards of threads `i` and `j`.
pub record Pair (n : ℕ) (w : World Lock Guard) (i j : ℕ) : Type 0 where
  pub behind :
      prev_of (w.pc i).pc ≡ some j
      → (j < n)
        × (in_line (w.pc j).pc ≡ true)
        × ((w.pc j).ticket + 1 ≡ (w.pc i).ticket)
        × ((w.pc j).next ≡ none)
  pub linked :
      in_line (w.pc i).pc ≡ true
      → (w.pc i).next ≡ some j
      → (j < n)
        × ((w.pc j).pc ≡ spinning)
        × ((w.pc j).is_owner ≡ false)
        × ((w.pc i).ticket + 1 ≡ (w.pc j).ticket)
  pub follows :
      j < n
      → in_line (w.pc i).pc ≡ true
      → (w.pc j).pc ≡ spinning
      → (w.pc j).is_owner ≡ false
      → (w.pc i).ticket + 1 ≡ (w.pc j).ticket
      → (w.pc i).next ≡ some j

pub record Inv (n : ℕ) (w : World Lock Guard) : Type 0 where
  pub owned : (t : ℕ) → tally (waits t) n w.pc ≡ issued t w.mem
  pub ordered : w.mem.released ≤ w.mem.exchanged
  pub free : w.mem.tail ≡ none → w.mem.released ≡ w.mem.exchanged
  pub last :
      (p : ℕ)
      → w.mem.tail ≡ some p
      → (p < n) × (in_line (w.pc p).pc ≡ true) × ((w.pc p).ticket + 1 ≡ w.mem.exchanged)
  pub each : (i : ℕ) → i < n → Each n w i
  pub pairs : (i j : ℕ) → i < n → Pair n w i j

module _ (n : ℕ) (w : World Lock Guard) (inv : Inv n w) where
  -- A guard has a ticket that is issued.
  pub in_range :
      (i : ℕ)
      → i < n
      → in_line (w.pc i).pc ≡ true
      → (w.mem.released ≤ (w.pc i).ticket) × ((w.pc i).ticket < w.mem.exchanged)
  in_range i lt e =
      ground (arith, e, inv.owned (w.pc i).ticket, le-tally (waits (w.pc i).ticket) n w.pc i lt)

  -- Two guards have two tickets.
  pub unique :
      (i j : ℕ)
      → i < n
      → j < n
      → in_line (w.pc i).pc ≡ true
      → in_line (w.pc j).pc ≡ true
      → (w.pc i).ticket ≡ (w.pc j).ticket
      → i ≡ j
  unique i j hi hj ei ej same = elim (Bool-cases (i == j)) [
    | inl eq ↦ (==_iff i j).0 eq
    | inr ne ↦ ground (
      arith,
      ei,
      ej,
      same,
      ne,
      inv.owned (w.pc i).ticket,
      add-le-tally (waits (w.pc i).ticket) n w.pc i j,
    )
  ]

  -- Nothing is linked to the last guard.
  pub last-next : (p : ℕ) → w.mem.tail ≡ some p → (w.pc p).next ≡ none
  last-next p e = elim (Option-cases (w.pc p).next) [
    | inl none_next ↦ none_next
    | inr (q, some_next) ↦
        let (lt, here, end) = inv.last p e in
        let (lt_q, spin, not_owner, after) = (inv.pairs p q lt).linked here some_next in
        absurd (ground (arith, spin, after, end, in_range q lt_q))
  ]
