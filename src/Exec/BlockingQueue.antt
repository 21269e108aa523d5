-- ===== src/Exec/BlockingQueue.antt =====
-- tasks/tasks/thread-pool/tp/queue.hpp: an unbounded blocking queue that can be closed, and threads
-- that call `Put`, `Take` and `Close`. A critical section under `mtx_` is one step, and so is a
-- notification. Which sleeper `notify_one` wakes is a parameter; a sleeper may wake up by itself.
pub mod Order
pub mod Wakeups
mod Tests
use concurrency_course_by_li.Base.{
  ℕ, zero, suc, ◌+◌, ◌-◌, ◌*◌, ◌/◌, ◌%◌, ◌^◌, ◌≤◌, ◌<◌, ◌≡◌, refl, sym, ap, ◌∙◌, subst, ◌≢◌, ◌↔◌,
  ◌⊎◌, inl, inr, Bool, true, false, not, ◌&&◌, ◌||◌, Option, none, some, List, [], ◌∷◌, ◌++◌, map,
  append_assoc, append-nil, arith, ltb, leb, ◌==◌, if◌then◌else◌, ltb→lt, lt→ltb, ==_iff,
  Bool-cases, Option-cases, length, length-append,
}
use concurrency_course_by_li.Threads.{
  update, tally, tally-update, le-tally, add-le-tally, tally-eq-zero, of_tally-eq-zero,
  member_of_tally, tally-map, tally-map_le, World, commit, turn, run, run_inv,
}

-- The fields of the class. `taken` and `accepted` are not in the source: the values popped and
-- pushed so far, the oldest first.
pub record Queue (T : Type 0) : Type 0 where
  pub is_opened : Bool
  pub queue : List T
  pub taken : List T
  pub accepted : List T

-- What the last call returned.
pub data Returned (T : Type 0) : Type 0 where
  nothing : Returned T
  put_returned : Bool → Returned T
  take_returned : Option T → Returned T

-- Outside, in `Put` before `notify_one`, asleep in `Take`, woken there, or in `Close` before
-- `notify_all`.
pub data Pc (T : Type 0) : Type 0 where
  outside : Returned T → Pc T
  notifying : Pc T
  asleep : Pc T
  woken : Pc T
  closing : Pc T

-- What a thread outside calls; `call_take` also lets a sleeper wake up by itself.
pub data Call (T : Type 0) : Type 0 where
  call_put : (value : T) → Call T
  call_take : Call T
  call_close : Call T

module _ {T : Type 0} where
  abbrev pub create : Queue T
  create = record { is_opened = true; queue = []; taken = []; accepted = [] }

  abbrev pub is_empty : List T → Bool
  is_empty [] = true
  is_empty (_ ∷ _) = false

  -- The critical section of `Put`.
  pub put_section : T → Queue T → Queue T × Pc T
  put_section v q =
      if q.is_opened
      then (record q { queue = q.queue ++ (v ∷ []); accepted = q.accepted ++ (v ∷ []) }, notifying)
      else (q, outside (put_returned false))

  -- `front` and `pop`.
  pub pop_front : List T → Queue T → Queue T × Pc T
  pop_front [] q = (q, outside (take_returned none))
  pop_front (v ∷ rest) q =
      (record q { queue = rest; taken = q.taken ++ (v ∷ []) }, outside (take_returned (some v)))

  -- `Take` from the predicate of `cv_.wait` on.
  pub take_section : Queue T → Queue T × Pc T
  unfolding pop_front
  take_section q =
      if not q.is_opened || not (is_empty q.queue)
      then if not q.is_opened && is_empty q.queue
        then (q, outside (take_returned none))
        else pop_front q.queue q
      else (q, asleep)

  -- The critical section of `Close`.
  pub close_section : Queue T → Queue T × Pc T
  close_section q =
      if q.is_opened then (record q { is_opened = false }, closing) else (q, outside nothing)

  pub act : Call T → Queue T → Pc T → Queue T × Pc T
  unfolding put_section take_section close_section
  act (call_put v) q (outside _) = put_section v q
  act call_take q (outside _) = take_section q
  act call_close q (outside _) = close_section q
  act _ q notifying = (q, outside (put_returned true))
  act call_take q asleep = take_section q
  act _ q asleep = (q, asleep)
  act _ q woken = take_section q
  act _ q closing = (q, outside nothing)

  abbrev pub is_asleep : Pc T → Bool
  is_asleep asleep = true
  is_asleep _ = false

  abbrev pub wake : Pc T → Pc T
  wake asleep = woken
  wake p = p

  module _ (pick : ℕ → (ℕ → Bool) → Option ℕ) (n : ℕ) where
    -- `notify_one`.
    pub notify_one : (ℕ → Pc T) → ℕ → Pc T
    notify_one pc = elim (pick n (λ k. is_asleep (pc k))) [ none ↦ pc | some j ↦ update pc j woken ]

    -- What a thread at `p` does to the sleepers.
    pub notify : Pc T → (ℕ → Pc T) → ℕ → Pc T
    unfolding notify_one
    notify notifying pc = notify_one pc
    notify closing pc = λ k. wake (pc k)
    notify _ pc = pc

    unfoldable pub step : ℕ → Call T → World (Queue T) (Pc T) → World (Queue T) (Pc T)
    unfolding act notify
    step i c w = commit i (record w { pc = notify (w.pc i) w.pc }) (act c w.mem (w.pc i))

  abbrev pub init : World (Queue T) (Pc T)
  init = record { mem = create; pc = λ _. outside nothing }
