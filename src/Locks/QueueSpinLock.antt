-- ===== src/Locks/QueueSpinLock.antt =====
-- tasks/mutex/queue/queue_spinlock.hpp: a spin lock with a queue of guards. A thread has at most one
-- guard at a time, which has the thread's number.
pub mod Invariant
pub mod Steps
pub mod Reach
pub mod Order
mod Tests
use concurrency_course_by_li.Base.{
  ℕ, zero, suc, ◌+◌, ◌-◌, ◌*◌, ◌/◌, ◌%◌, ◌^◌, ◌≤◌, ◌<◌, ◌≡◌, refl, sym, ap, ◌∙◌, subst, ◌≢◌, ◌↔◌,
  ◌⊎◌, inl, inr, Bool, true, false, not, ◌&&◌, ◌||◌, Option, none, some, List, [], ◌∷◌, ◌++◌, map,
  append_assoc, append-nil, arith, ltb, leb, ◌==◌, if◌then◌else◌, ltb→lt, lt→ltb, ==_iff,
  Bool-cases, Option-cases, length, length-append, size_mod, wrap_add, wrap_sub,
}
use concurrency_course_by_li.Threads.{
  update, tally, tally-all, tally-update, le-tally, add-le-tally, tally-eq-zero, of_tally-eq-zero,
  member_of_tally, others, others_add, others-update, tally-map, tally-map_le, tally-alone,
  tally-none, add-tally-le, run_inv_timed, World, commit, turn, run, run_inv,
}

-- The lock. Not in the source: how many guards have exchanged `tail_`, and how many have released the
-- lock.
pub record Lock : Type 0 where
  pub tail : Option ℕ
  pub exchanged : ℕ
  pub released : ℕ

-- Where a thread stands: outside; in `Acquire` with `prev_tail`, before it stores `is_owner_`, before it
-- writes to `next_` of the previous guard, and in the loop; behind `Acquire`; in `Release` before it
-- looks at `next_`, before the compare-exchange, before it loads `next_` again, and before it writes to
-- `is_owner_` of the next guard; or it has used a null pointer.
pub data Pc : Type 0 where
  outside : Pc
  storing : (prev_tail : Option ℕ) → Pc
  linking : (prev_tail : ℕ) → Pc
  spinning inside releasing clearing loading : Pc
  handing : (next_guard : ℕ) → Pc
  crashed : Pc

-- A thread's guard, and where the thread stands. Not in the source: how many guards exchanged `tail_`
-- before this one.
pub record Guard : Type 0 where
  pub next : Option ℕ
  pub is_owner : Bool
  pub ticket : ℕ
  pub pc : Pc

pub data Turn : Type 0 where
  take_turn : Turn

-- The constructor of the guard, and the exchange of `tail_`.
pub enter : ℕ → Lock → Lock × Guard
enter i l = (
  record l { tail = some i; exchanged = l.exchanged + 1 },
  record { next = none; is_owner = false; ticket = l.exchanged; pc = storing l.tail },
)

-- The first store, and the branch behind it.
pub store_owner : Option ℕ → Guard → Guard
store_owner none g = record g { is_owner = true; pc = spinning }
store_owner (some p) g = record g { is_owner = false; pc = linking p }

pub same_guard : Option ℕ → ℕ → Bool
same_guard none i = false
same_guard (some p) i = p == i

-- The compare-exchange of `Release`.
pub clear_tail : ℕ → Lock → Guard → Lock × Guard
unfolding same_guard
clear_tail i l g =
    if same_guard l.tail i
    then (record l { tail = none; released = l.released + 1 }, record g { pc = outside })
    else (l, record g { pc = releasing })

pub look_next : Option ℕ → Pc
look_next none = clearing
look_next (some q) = loading

-- `next_` is loaded again, and used.
pub load_next : Option ℕ → Pc
load_next none = crashed
load_next (some q) = handing q

-- What a turn of the thread `i` does to the lock and its own guard.
pub act : ℕ → Lock → Guard → Pc → Lock × Guard
unfolding enter store_owner clear_tail look_next load_next
act i l g outside = enter i l
act i l g (storing prev_tail) = (l, store_owner prev_tail g)
act i l g (linking p) = (l, record g { pc = spinning })
act i l g spinning = (l, if g.is_owner then record g { pc = inside } else g)
act i l g inside = (l, record g { pc = releasing })
act i l g releasing = (l, record g { pc = look_next g.next })
act i l g clearing = clear_tail i l g
act i l g loading = (l, record g { pc = load_next g.next })
act i l g (handing q) = (record l { released = l.released + 1 }, record g { pc = outside })
act i l g crashed = (l, g)

-- What it does to other guards.
pub touch : ℕ → Pc → (ℕ → Guard) → ℕ → Guard
touch i (linking p) f = update f p (record (f p) { next = some i })
touch i (handing q) f = update f q (record (f q) { is_owner = true })
touch i _ f = f

unfoldable pub step : ℕ → Turn → World Lock Guard → World Lock Guard
unfolding act touch
step i c w =
    commit i (record w { pc = touch i (w.pc i).pc w.pc }) (act i w.mem (w.pc i) (w.pc i).pc)

abbrev pub init : World Lock Guard
init = record {
  mem = record { tail = none; exchanged = 0; released = 0 };
  pc = λ _. record { next = none; is_owner = false; ticket = 0; pc = outside };
}
