-- ===== src/Futures/SharedState/Turns.antt =====
-- Neither side of tasks/futures/fun/exe/futures/state/shared_state.hpp blocks the other: every turn of
-- `SetResult` and of `SetCallback` takes it one step on.
use concurrency_course_by_li.Base.{
  ℕ, zero, suc, ◌+◌, ◌-◌, ◌≤◌, ◌<◌, ◌≡◌, refl, inl, inr, Bool, List, [], ◌∷◌, arith, ltb, ◌==◌,
  if◌then◌else◌, ltb→lt, Bool-cases, Option-cases,
}
use concurrency_course_by_li.Threads.{turn, run}
use concurrency_course_by_li.Futures.SharedState.{
  SharedState, SetPc, UsePc, Race, set_start, set_notify, set_exchange, set_submit, set_done,
  set_crashed, use_callback, use_exchange, use_submit, use_done, use_crashed, use_get, use_asleep,
  use_got, notify_one, set_step, use_step, submit_callback, step,
}
use concurrency_course_by_li.Futures.SharedState.Protocol.{setter_stage, user_stage}

-- The turns of thread `k` in a schedule.
abbrev pub turns_of : ℕ → List (ℕ × Bool) → ℕ
turns_of k [] = 0
turns_of k ((i, b) ∷ ts) = (if i == k then 1 else 0) + turns_of k ts

-- The steps that are left to each side.
module _ {R : Type 0} where
  abbrev pub set_left : SetPc R → ℕ
  set_left (set_start r) = 4
  set_left set_notify = 3
  set_left set_exchange = 2
  set_left set_submit = 1
  set_left _ = 0

  pub done_setter : (p : SetPc R) → set_left p ≡ 0 → setter_stage p ≤ 2 → setter_stage p ≡ 2
  done_setter (set_start r) z h = absurd (omega arith)
  done_setter set_notify z h = absurd (omega arith)
  done_setter set_exchange z h = absurd (omega arith)
  done_setter set_submit z h = absurd (omega arith)
  done_setter set_done z h = refl
  done_setter set_crashed z h = absurd (omega arith)

module _ {R C : Type 0} where
  abbrev pub use_left : UsePc R C → ℕ
  use_left (use_callback c) = 3
  use_left use_exchange = 2
  use_left use_submit = 1
  use_left _ = 0

  use_left-notify : (u : UsePc R C) (p : SetPc R) → use_left (notify_one u p) ≤ use_left u
  use_left-notify (use_callback c) p = omega arith
  use_left-notify use_exchange p = omega arith
  use_left-notify use_submit p = omega arith
  use_left-notify use_done p = omega arith
  use_left-notify use_crashed p = omega arith
  use_left-notify use_get p = omega arith
  use_left-notify use_asleep (set_start r) = omega arith
  use_left-notify use_asleep set_notify = omega arith
  use_left-notify use_asleep set_exchange = omega arith
  use_left-notify use_asleep set_submit = omega arith
  use_left-notify use_asleep set_done = omega arith
  use_left-notify use_asleep set_crashed = omega arith
  use_left-notify (use_got r) p = omega arith

  pub done_user : (u : UsePc R C) → use_left u ≡ 0 → user_stage u ≤ 2 → user_stage u ≡ 2
  done_user (use_callback c) z h = absurd (omega arith)
  done_user use_exchange z h = absurd (omega arith)
  done_user use_submit z h = absurd (omega arith)
  done_user use_done z h = refl
  done_user use_crashed z h = absurd (omega arith)
  done_user use_get z h = absurd (omega arith)
  done_user use_asleep z h = absurd (omega arith)
  done_user (use_got r) z h = absurd (omega arith)

module _ {E R C : Type 0} where
  set_left-step : (p : SetPc R) (s : SharedState E R C) → set_left (set_step p s).1 ≤ set_left p - 1
  unfolding set_step
  set_left-step (set_start r) s = omega arith
  set_left-step set_notify s = omega arith
  set_left-step set_exchange s = elim (Bool-cases (s.state == 1)) [
    | inl e ↦ rw e (omega arith)
    | inr e ↦ rw e (omega arith)
  ]
  set_left-step set_submit s = elim (Option-cases (submit_callback s)) [
    | inl e ↦ rw (set_step, e) (omega arith)
    | inr (s', e) ↦ rw (set_step, e) (omega arith)
  ]
  set_left-step set_done s = omega arith
  set_left-step set_crashed s = omega arith

  use_left-step :
      (b : Bool) (u : UsePc R C) (s : SharedState E R C)
      → use_left (use_step b u s).1 ≤ use_left u - 1
  unfolding use_step
  use_left-step b (use_callback c) s = omega arith
  use_left-step b use_exchange s = elim (Bool-cases (s.state == 2)) [
    | inl e ↦ rw e (omega arith)
    | inr e ↦ rw e (omega arith)
  ]
  use_left-step b use_submit s = elim (Option-cases (submit_callback s)) [
    | inl e ↦ rw (use_step, e) (omega arith)
    | inr (s', e) ↦ rw (use_step, e) (omega arith)
  ]
  use_left-step b use_done s = omega arith
  use_left-step b use_crashed s = omega arith
  use_left-step b use_get s = elim (Option-cases s.result_opt) [
    | inl e ↦ rw e (omega arith)
    | inr (r', e) ↦ rw e (omega arith)
  ]
  use_left-step b use_asleep s = elim (Bool-cases b) [
    | inl e ↦ rw e (omega arith)
    | inr e ↦ rw e (omega arith)
  ]
  use_left-step b (use_got r) s = omega arith

  -- Every turn of a side takes it one step on.
  left-step :
      (i : ℕ) (b : Bool) (w : Race E R C)
      → i < 2
      → (set_left (step i b w).setter ≤ set_left w.setter - (if i == 0 then 1 else 0))
        × (use_left (step i b w).user ≤ use_left w.user - (if i == 1 then 1 else 0))
  unfolding step
  left-step zero b w lt =
      (set_left-step w.setter w.shared, omega (arith, use_left-notify w.user w.setter))
  left-step (suc zero) b w lt = (omega arith, use_left-step b w.user w.shared)
  left-step (suc (suc i)) b w lt = absurd (omega arith)

  left-turn :
      (i : ℕ) (b : Bool) (w : Race E R C)
      → (set_left (turn step 2 w (i, b)).setter ≤ set_left w.setter - (if i == 0 then 1 else 0))
        × (use_left (turn step 2 w (i, b)).user ≤ use_left w.user - (if i == 1 then 1 else 0))
  unfolding turn
  left-turn i b w = elim (Bool-cases (ltb i 2)) [
    | inl lt ↦ rw (set_left, use_left, lt) (left-step i b w (ltb→lt _ _ lt))
    | inr ge ↦ rw (set_left, use_left, ge) (ground arith, ground arith)
  ]

  -- The turns that a schedule gives to a side take it as many steps on.
  pub left-run :
      (ts : List (ℕ × Bool)) (w : Race E R C)
      → (set_left (run step 2 ts w).setter ≤ set_left w.setter - turns_of 0 ts)
        × (use_left (run step 2 ts w).user ≤ use_left w.user - turns_of 1 ts)
  unfolding run
  left-run [] w = (omega arith, omega arith)
  left-run ((i, b) ∷ ts) w =
      let one = left-turn i b w in
      let rest = left-run ts (turn step 2 w (i, b)) in
      (omega (arith, one.0, rest.0), omega (arith, one.1, rest.1))
