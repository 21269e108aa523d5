-- ===== src/Locks/Dining.antt =====
-- tasks/mutex/dining: the table of table.hpp and the philosophers of philosopher.cpp. A fork is a
-- mutex, which `lock` waits for; a philosopher thinks between meals.
pub mod Forks
pub mod Progress
mod Tests
use concurrency_course_by_li.Base.{
  ℕ, zero, suc, ◌+◌, ◌-◌, ◌*◌, ◌/◌, ◌%◌, ◌^◌, ◌≤◌, ◌<◌, ◌≡◌, refl, sym, ap, ◌∙◌, subst, ◌≢◌, ◌↔◌,
  ◌⊎◌, inl, inr, Bool, true, false, not, ◌&&◌, ◌||◌, Option, none, some, List, [], ◌∷◌, ◌++◌, map,
  append_assoc, append-nil, arith, ltb, leb, ◌==◌, if◌then◌else◌, ltb→lt, lt→ltb, ==_iff,
  Bool-cases, Option-cases, length, length-append, size_mod, wrap_add, wrap_sub,
}
use concurrency_course_by_li.Threads.{
  update, tally, tally-update, le-tally, add-le-tally, tally-eq-zero, of_tally-eq-zero,
  member_of_tally, tally-map, tally-map_le, tally-alone, tally-none, add-tally-le, run_inv_timed,
  World, commit, turn, run, run_inv,
}

-- The forks of a table, by seat: whether each is locked.
pub record Table : Type 0 where
  pub num_seats : ℕ
  pub forks : ℕ → Bool

pub to_right : ℕ → ℕ → ℕ
to_right num_seats seat = (seat + 1) % num_seats

-- The index of `LeftFork` and of `RightFork`.
abbrev pub left_fork : ℕ → ℕ → ℕ
left_fork num_seats seat = seat

abbrev pub right_fork : ℕ → ℕ → ℕ
right_fork num_seats seat = to_right num_seats seat

-- The order of `AcquireForks`.
pub first_fork : ℕ → ℕ → ℕ
first_fork num_seats seat =
    if seat == 0 then right_fork num_seats seat else left_fork num_seats seat

pub second_fork : ℕ → ℕ → ℕ
second_fork num_seats seat =
    if seat == 0 then left_fork num_seats seat else right_fork num_seats seat

-- Outside of `Eat` or before the first `lock`, before the second one, before the access to each
-- plate, and before each `unlock`.
pub data Pc : Type 0 where
  thinking one_fork at_left_plate at_right_plate two_forks left_only : Pc

pub record Philosopher : Type 0 where
  pub seat : ℕ
  pub meals : ℕ
  pub pc : Pc

-- `lock`: the thread stays where it is while the fork is locked.
pub lock : ℕ → Pc → Table → Philosopher → Table × Philosopher
lock fork next t p =
    if t.forks fork
    then (t, p)
    else (record t { forks = update t.forks fork true }, record p { pc = next })

pub unlock : ℕ → Table → Table
unlock fork t = record t { forks = update t.forks fork false }

-- One access of a philosopher in `Eat`.
pub act : Pc → Table → Philosopher → Table × Philosopher
unfolding lock unlock
act thinking t p = lock (first_fork t.num_seats p.seat) one_fork t p
act one_fork t p = lock (second_fork t.num_seats p.seat) at_left_plate t p
act at_left_plate t p = (t, record p { pc = at_right_plate })
act at_right_plate t p = (t, record p { pc = two_forks; meals = p.meals + 1 })
act two_forks t p = (unlock (right_fork t.num_seats p.seat) t, record p { pc = left_only })
act left_only t p = (unlock (left_fork t.num_seats p.seat) t, record p { pc = thinking })

-- The turn carries no choice.
unfoldable pub step : ℕ → Bool → World Table Philosopher → World Table Philosopher
unfolding act
step i _ w = commit i w (act (w.pc i).pc w.mem (w.pc i))

abbrev pub init : ℕ → World Table Philosopher
init num_seats = record {
  mem = record { num_seats = num_seats; forks = λ _. false };
  pc = λ i. record { seat = i; meals = 0; pc = thinking };
}
