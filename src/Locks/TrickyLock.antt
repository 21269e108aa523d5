-- ===== src/Locks/TrickyLock.antt =====
-- tasks/mutex/livelock/tricky_lock.hpp: a lock that a thread leaves again if it was not the first.
pub mod Counter
mod Tests
use concurrency_course_by_li.Base.{
  ℕ, zero, suc, ◌+◌, ◌-◌, ◌*◌, ◌/◌, ◌%◌, ◌^◌, ◌≤◌, ◌<◌, ◌≡◌, refl, sym, ap, ◌∙◌, subst, ◌≢◌, ◌↔◌,
  ◌⊎◌, inl, inr, Bool, true, false, not, ◌&&◌, ◌||◌, Option, none, some, List, [], ◌∷◌, ◌++◌, map,
  append_assoc, append-nil, arith, ltb, leb, ◌==◌, if◌then◌else◌, ltb→lt, lt→ltb, ==_iff,
  Bool-cases, Option-cases, length, length-append, size_mod, wrap_add, wrap_sub,
}
use concurrency_course_by_li.Threads.{
  update, tally, tally-all, tally-update, le-tally, add-le-tally, tally-eq-zero, of_tally-eq-zero,
  member_of_tally, tally-map, tally-map_le, tally-alone, tally-none, add-tally-le, run_inv_timed,
  World, commit, turn, run, run_inv,
}

pub record TrickyLock : Type 0 where
  pub thread_count : ℕ

-- The `fetch_add` of `Lock`, and whether the loop goes on.
pub step_in : TrickyLock → TrickyLock × Bool
step_in l = (record { thread_count = wrap_add l.thread_count 1 }, ltb 0 l.thread_count)

-- The `fetch_sub` in the loop of `Lock`.
pub step_back : TrickyLock → TrickyLock
step_back l = record { thread_count = wrap_sub l.thread_count 1 }

pub unlock : TrickyLock → TrickyLock
unlock l = record { thread_count = wrap_sub l.thread_count 1 }

-- Outside or at the condition of the loop, in the body of the loop, or inside.
pub data Pc : Type 0 where
  at_loop stepping_back inside : Pc

-- One access of one thread; the turn carries no choice.
pub act : TrickyLock → Pc → TrickyLock × Pc
unfolding step_in step_back unlock
act l at_loop = let (l', again) = step_in l in (l', if again then stepping_back else inside)
act l stepping_back = (step_back l, at_loop)
act l inside = (unlock l, at_loop)

unfoldable pub step : ℕ → Bool → World TrickyLock Pc → World TrickyLock Pc
unfolding act
step i _ w = commit i w (act w.mem (w.pc i))

abbrev pub init : World TrickyLock Pc
init = record { mem = record { thread_count = 0 }; pc = λ _. at_loop }
