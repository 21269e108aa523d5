-- ===== src/Cond/Barrier/Invariant.antt =====
-- How the counters of tasks/cond/barrier/cyclic_barrier.hpp go with the threads: those that are
-- still to arrive, those that have arrived, and those that have departed.
use concurrency_course_by_li.Base.{
  ℕ, ◌+◌, ◌≤◌, ◌<◌, ◌≡◌, refl, ◌⊎◌, inl, Bool, true, false, ◌&&◌, ◌||◌, arith, ltb, ◌==◌,
  if◌then◌else◌,
}
use concurrency_course_by_li.Threads.{tally, tally-all, le-tally, tally-eq-zero, World}
use concurrency_course_by_li.Cond.Barrier.{
  CyclicBarrier, Pc, outside, checking, limit_locking, limit_asleep, arriving, asleep, relocking,
  passing, departing, resetting, Thread, Signal, notify, init,
}

abbrev outer : Pc → Bool
outer outside = true
outer checking = true
outer limit_locking = true
outer limit_asleep = true
outer arriving = true
outer _ = false

abbrev inner : Pc → Bool
inner asleep = true
inner relocking = true
inner passing = true
inner _ = false

-- In generation `g`: to arrive, arrived, departed.
abbrev pub behind : ℕ → Thread → ℕ
behind g t = if outer t.pc && t.rounds == g then 1 else 0

abbrev pub present : ℕ → Thread → ℕ
present g t = if inner t.pc && t.rounds == g then 1 else 0

abbrev pub gone : ℕ → Thread → ℕ
gone g t = elim t.pc [
  | departing ↦ if t.rounds == g then 1 else 0
  | resetting ↦ if t.rounds == g then 1 else 0
  | _ ↦ if outer t.pc && t.rounds == g + 1 then 1 else 0
]

-- With the lock.
abbrev pub has_lock : Thread → ℕ
has_lock t = elim t.pc [ passing ↦ 1 | departing ↦ 1 | resetting ↦ 1 | _ ↦ 0 ]

-- What a thread at a place knows of the barrier.
abbrev pub knows : CyclicBarrier → Thread → Bool
knows b t = elim t.pc [
  | checking ↦ t.rounds == b.generation || (b.arrived == 0 && ltb 0 b.departed)
  | limit_asleep ↦ t.rounds == b.generation + 1
  | arriving ↦ t.rounds == b.generation
  | asleep ↦ b.departed == 0 && (ltb b.arrived b.participants || b.is_locked)
  | passing ↦ b.arrived == b.participants
  | departing ↦ b.arrived == b.participants && ltb 0 b.departed
  | resetting ↦ b.arrived == 0 && b.departed == b.participants
  | _ ↦ true
]

-- The counts, apart from what each thread knows.
pub record Counts (n : ℕ) (w : World CyclicBarrier Thread) : Type 0 where
  pub size : w.mem.participants ≡ n
  pub all :
      tally (behind w.mem.generation) n w.pc
        + tally (present w.mem.generation) n w.pc
        + tally (gone w.mem.generation) n w.pc
      ≡ n
  pub departures : w.mem.departed ≡ tally (gone w.mem.generation) n w.pc
  pub in_turn : 0 < w.mem.departed → tally (behind w.mem.generation) n w.pc ≡ 0
  pub arrivals_of :
      (w.mem.arrived
        ≡ tally (present w.mem.generation) n w.pc + tally (gone w.mem.generation) n w.pc)
      ⊎ ((w.mem.arrived ≡ 0) × (w.mem.departed ≡ n))
  pub lock : tally has_lock n w.pc ≡ (if w.mem.is_locked then 1 else 0)
  pub unfinished : w.mem.is_locked ≡ false → w.mem.departed < n
  pub notified : w.mem.is_notified ≡ ltb 0 w.mem.departed

-- A thread is in one of the three groups, and its place fits the barrier.
pub record Local (b : CyclicBarrier) (t : Thread) : Type 0 where
  pub placed : behind b.generation t + present b.generation t + gone b.generation t ≡ 1
  pub known : knows b t ≡ true

pub record Inv (n : ℕ) (w : World CyclicBarrier Thread) : Type 0 where
  pub counts : Counts n w
  pub local : (i : ℕ) → i < n → Local w.mem (w.pc i)

-- What a thread adds to the counts.
pub record Part (n i : ℕ) (w : World CyclicBarrier Thread) : Type 0 where
  pub in_behind : behind w.mem.generation (w.pc i) ≤ tally (behind w.mem.generation) n w.pc
  pub in_present : present w.mem.generation (w.pc i) ≤ tally (present w.mem.generation) n w.pc
  pub in_gone : gone w.mem.generation (w.pc i) ≤ tally (gone w.mem.generation) n w.pc
  pub in_lock : has_lock (w.pc i) ≤ tally has_lock n w.pc

pub part : (n i : ℕ) (w : World CyclicBarrier Thread) → i < n → Part n i w
part n i w lt = record {
  in_behind = le-tally (behind w.mem.generation) n w.pc i lt;
  in_present = le-tally (present w.mem.generation) n w.pc i lt;
  in_gone = le-tally (gone w.mem.generation) n w.pc i lt;
  in_lock = le-tally has_lock n w.pc i lt;
}

-- Whom a step wakes up makes no difference to the counts.
module _ (g : ℕ) (s : Signal) (t : Thread) where
  pub notify-behind : behind g (notify s t) ≡ behind g t
  notify-behind = ground arith

  pub notify-present : present g (notify s t) ≡ present g t
  notify-present = ground arith

  pub notify-gone : gone g (notify s t) ≡ gone g t
  notify-gone = ground arith

  pub notify-has_lock : has_lock (notify s t) ≡ has_lock t
  notify-has_lock = ground arith

pub init-Inv : (n : ℕ) → 0 < n → Inv n (init n)
init-Inv n pos =
    let pc = (init n).pc in
    let b = tally-all (behind 0) n pc (λ i lt. refl) in
    let p = tally-eq-zero (present 0) n pc (λ i lt. refl) in
    let d = tally-eq-zero (gone 0) n pc (λ i lt. refl) in
    record {
      counts = record {
        size = refl;
        all = omega (arith, b, p, d);
        departures = omega (arith, d);
        in_turn = λ h. absurd (omega (arith, h));
        arrivals_of = inl (omega (arith, p, d));
        lock = tally-eq-zero has_lock n pc (λ i lt. refl);
        unfinished = λ _. pos;
        notified = refl;
      };
      local = λ i lt. record { placed = refl; known = refl };
    }
