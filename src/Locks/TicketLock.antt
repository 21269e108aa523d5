-- ===== src/Locks/TicketLock.antt =====
-- tasks/mutex/try-lock/ticket_lock.hpp: the lock that threads enter in the order of their tickets.
pub mod Order
mod Tests
use concurrency_course_by_li.Base.{
  ℕ, zero, suc, ◌+◌, ◌-◌, ◌*◌, ◌/◌, ◌%◌, ◌^◌, ◌≤◌, ◌<◌, ◌≡◌, refl, sym, ap, ◌∙◌, subst, ◌≢◌, ◌↔◌,
  ◌⊎◌, inl, inr, Bool, true, false, not, ◌&&◌, ◌||◌, Option, none, some, List, [], ◌∷◌, ◌++◌, map,
  append_assoc, append-nil, arith, ltb, leb, ◌==◌, if◌then◌else◌, ltb→lt, lt→ltb, ==_iff,
  Bool-cases, Option-cases, length, length-append, size_mod, wrap_add, wrap_sub,
}
use concurrency_course_by_li.Threads.{
  update, tally, tally-update, le-tally, add-le-tally, tally-eq-zero, of_tally-eq-zero,
  member_of_tally, tally-map, tally-map_le, tally-alone, tally-none, add-tally-le, run_inv_timed,
  World, commit, turn, run, run_inv,
}

pub record TicketLock : Type 0 where
  pub next_free_ticket : ℕ
  pub owner_ticket : ℕ

-- The `fetch_add` of `Lock`, and the ticket that it returns.
pub take_ticket : TicketLock → TicketLock × ℕ
take_ticket l = (record l { next_free_ticket = wrap_add l.next_free_ticket 1 }, l.next_free_ticket)

-- The condition of the loop of `Lock`: whether the loop goes on.
pub is_waiting : ℕ → TicketLock → Bool
is_waiting this_thread_ticket l = not (this_thread_ticket == l.owner_ticket)

-- The compare-exchange of `TryLock`, after the load.
pub try_ticket : ℕ → TicketLock → TicketLock × Bool
try_ticket owner l =
    if l.next_free_ticket == owner
    then (record l { next_free_ticket = wrap_add owner 1 }, true)
    else (l, false)

pub unlock : TicketLock → TicketLock
unlock l = record l { owner_ticket = wrap_add l.owner_ticket 1 }

-- Outside, in the loop of `Lock`, before the compare-exchange of `TryLock`, or inside.
pub data Pc : Type 0 where
  outside : Pc
  spinning : (this_thread_ticket : ℕ) → Pc
  trying : (owner : ℕ) → Pc
  inside : Pc

pub data Call : Type 0 where
  call_lock call_try_lock : Call

-- One access of one thread. The call is read by a thread outside only.
pub act : Call → TicketLock → Pc → TicketLock × Pc
unfolding take_ticket is_waiting try_ticket unlock
act call_lock l outside = let (l', ticket) = take_ticket l in (l', spinning ticket)
act call_try_lock l outside = (l, trying l.owner_ticket)
act _ l (spinning t) = (l, if is_waiting t l then spinning t else inside)
act _ l (trying o) = let (l', won) = try_ticket o l in (l', if won then inside else outside)
act _ l inside = (unlock l, outside)

unfoldable pub step : ℕ → Call → World TicketLock Pc → World TicketLock Pc
unfolding act
step i c w = commit i w (act c w.mem (w.pc i))

abbrev pub init : World TicketLock Pc
init = record { mem = record { next_free_ticket = 0; owner_ticket = 0 }; pc = λ _. outside }
