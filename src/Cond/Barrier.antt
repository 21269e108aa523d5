-- ===== src/Cond/Barrier.antt =====
-- tasks/cond/barrier/cyclic_barrier.hpp: `ArriveAndWait` at its accesses of the two counters, which
-- it also reads without the mutex. A thread that finds the mutex locked stays where it is.
pub mod Invariant
pub mod Steps
pub mod Places
pub mod Reset
pub mod Rounds
mod Tests
use concurrency_course_by_li.Base.{
  ℕ, zero, suc, ◌+◌, ◌-◌, ◌*◌, ◌/◌, ◌%◌, ◌^◌, ◌≤◌, ◌<◌, ◌≡◌, refl, sym, ap, ◌∙◌, subst, ◌≢◌, ◌↔◌,
  ◌⊎◌, inl, inr, Bool, true, false, not, ◌&&◌, ◌||◌, Option, none, some, List, [], ◌∷◌, ◌++◌, map,
  append_assoc, append-nil, arith, ltb, leb, ◌==◌, if◌then◌else◌, ltb→lt, lt→ltb, ==_iff,
  Bool-cases, Option-cases, length, length-append, size_mod, wrap_add, wrap_sub,
}
use concurrency_course_by_li.Threads.{
  update, tally, tally-all, tally-update, le-tally, add-le-tally, tally-eq-zero, of_tally-eq-zero,
  member_of_tally, tally-map, tally-map_le, tally-alone, tally-none, add-tally-le, run_inv_timed,
  World, commit, turn, run, run_inv,
}

-- `is_locked` is the mutex. The last field is not in the source: how often the counters were reset.
pub record CyclicBarrier : Type 0 where
  pub participants : ℕ
  pub arrived : ℕ
  pub departed : ℕ
  pub is_notified : Bool
  pub is_locked : Bool
  pub generation : ℕ

abbrev pub create : ℕ → CyclicBarrier
create participants = record {
  participants = participants;
  arrived = 0;
  departed = 0;
  is_notified = false;
  is_locked = false;
  generation = 0;
}

-- Where a thread stands in `ArriveAndWait`: outside or at the load of `arrived_`, at the load of
-- `departed_`, before the lock of the limit or asleep there, before the lock of the arrival, asleep
-- there or before the lock again; and with the lock, before the notification and the departure,
-- behind them, and between the two stores of the reset.
pub data Pc : Type 0 where
  outside checking limit_locking limit_asleep arriving asleep relocking : Pc
  passing departing resetting : Pc

-- A thread, and how many calls it has completed.
pub record Thread : Type 0 where
  pub rounds : ℕ
  pub pc : Pc

-- The predicate of `limit_reached_cv_`.
pub is_next : CyclicBarrier → Bool
is_next b = ltb b.arrived b.participants && b.departed == 0

-- The predicate of `arrival_waiting_cv_`.
pub is_full : CyclicBarrier → Bool
is_full b = b.arrived == b.participants

-- `arrived_.fetch_add(1)` and the predicate behind it; a thread that goes to sleep unlocks.
pub arrive : CyclicBarrier → CyclicBarrier × Pc
unfolding is_full
arrive b =
    let b' : CyclicBarrier = record b { arrived = wrap_add b.arrived 1 } in
    if is_full b' then (record b' { is_locked = true }, passing) else (b', asleep)

-- A sleeper that has the lock again.
pub relock : CyclicBarrier → CyclicBarrier × Pc
unfolding is_full
relock b = if is_full b then (record b { is_locked = true }, passing) else (b, asleep)

-- The notification and `departed_.fetch_add(1)`.
pub depart : CyclicBarrier → CyclicBarrier
unfolding is_full
depart b = record b { is_notified = b.is_notified || is_full b; departed = wrap_add b.departed 1 }

-- The condition of the last `if`, with `arrived_.store(0)` or the end of the call.
pub leave : CyclicBarrier → Thread → CyclicBarrier × Thread
leave b t =
    if b.departed == b.arrived
    then (record b { arrived = 0 }, record t { pc = resetting })
    else (record b { is_locked = false }, record { rounds = t.rounds + 1; pc = outside })

-- The rest of the reset.
pub reset : CyclicBarrier → CyclicBarrier
reset b = record b {
  departed = 0;
  is_notified = false;
  is_locked = false;
  generation = b.generation + 1;
}

-- Whom a step notifies.
pub data Signal : Type 0 where
  nobody arrivals limits : Signal

pub signal : CyclicBarrier → Pc → Signal
unfolding is_full
signal b passing = if is_full b && not b.is_notified then arrivals else nobody
signal b resetting = limits
signal b _ = nobody

abbrev pub woken : Signal → Pc → Pc
woken arrivals asleep = relocking
woken limits limit_asleep = limit_locking
woken _ p = p

abbrev pub notify : Signal → Thread → Thread
notify s t = record t { pc = woken s t.pc }

-- One access of a thread. `spurious`: whether a sleeper wakes up by itself.
pub act : Bool → Pc → CyclicBarrier → Thread → CyclicBarrier × Thread
unfolding is_next arrive relock depart leave reset
act spurious outside b t =
    (b, record t { pc = if ltb b.arrived b.participants then checking else limit_locking })
act spurious checking b t =
    (b, record t { pc = if b.departed == 0 then arriving else limit_locking })
act spurious limit_locking b t =
    if b.is_locked
    then (b, t)
    else (b, record t { pc = if is_next b then arriving else limit_asleep })
act spurious limit_asleep b t =
    (b, record t { pc = if spurious then limit_locking else limit_asleep })
act spurious arriving b t =
    if b.is_locked then (b, t) else let (b', p) = arrive b in (b', record t { pc = p })
act spurious asleep b t = (b, record t { pc = if spurious then relocking else asleep })
act spurious relocking b t =
    if b.is_locked then (b, t) else let (b', p) = relock b in (b', record t { pc = p })
act spurious passing b t = (depart b, record t { pc = departing })
act spurious departing b t = leave b t
act spurious resetting b t = (reset b, record { rounds = t.rounds + 1; pc = outside })

unfoldable pub step : ℕ → Bool → World CyclicBarrier Thread → World CyclicBarrier Thread
unfolding act signal
step i spurious w =
    let s = signal w.mem (w.pc i).pc in
    commit i (record w { pc = λ k. notify s (w.pc k) }) (act spurious (w.pc i).pc w.mem (w.pc i))

abbrev pub init : ℕ → World CyclicBarrier Thread
init participants = record {
  mem = create participants;
  pc = λ i. record { rounds = 0; pc = outside };
}
