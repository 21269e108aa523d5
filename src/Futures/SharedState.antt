-- ===== src/Futures/SharedState.antt =====
-- tasks/futures/fun/exe/futures/state/shared_state.hpp: the state that a promise and a future
-- share, while one thread sets the result and another one subscribes a callback or waits in
-- `SyncGet`. A critical section under `mtx_` is one step, and so is each exchange of `state_`.
pub mod Protocol
pub mod Once
pub mod Turns
pub mod Waiting
mod Tests
use concurrency_course_by_li.Base.{
  ℕ, zero, suc, ◌+◌, ◌-◌, ◌*◌, ◌/◌, ◌%◌, ◌^◌, ◌≤◌, ◌<◌, ◌≡◌, refl, sym, ap, ◌∙◌, subst, ◌≢◌, ◌↔◌,
  ◌⊎◌, inl, inr, Bool, true, false, not, ◌&&◌, ◌||◌, Option, none, some, List, [], ◌∷◌, ◌++◌, map,
  append_assoc, append-nil, arith, ltb, leb, ◌==◌, if◌then◌else◌, ltb→lt, lt→ltb, ==_iff,
  Bool-cases, Option-cases, length, length-append,
}
use concurrency_course_by_li.Threads.{
  update, tally, tally-update, le-tally, add-le-tally, tally-eq-zero, of_tally-eq-zero,
  member_of_tally, tally-map, tally-map_le, tally-alone, tally-none, add-tally-le, run_inv_timed,
  World, commit, turn, run, run_inv,
}

-- `State`.
abbrev pub initial : ℕ
initial = 0

abbrev pub callback_set : ℕ
callback_set = 1

abbrev pub result_set : ℕ
result_set = 2

-- `E` stands for the executors, `R` for `Result<T>`, `C` for the callbacks. The last field is not
-- in the source: what was submitted to an executor, the oldest first.
pub record SharedState (E R C : Type 0) : Type 0 where
  pub result_opt : Option R
  pub callback_opt : Option C
  pub executor : E
  pub state : ℕ
  pub submitted : List (E × R × C)

-- The producer: before its critical section, before `notify_one`, before the exchange, before the
-- submission, behind it.
pub data SetPc (R : Type 0) : Type 0 where
  set_start : R → SetPc R
  set_notify set_exchange set_submit set_done set_crashed : SetPc R

-- The consumer: the same for `SetCallback`; in `SyncGet` at the predicate, asleep, and with the
-- result.
pub data UsePc (R C : Type 0) : Type 0 where
  use_callback : C → UsePc R C
  use_exchange use_submit use_done use_crashed : UsePc R C
  use_get use_asleep : UsePc R C
  use_got : R → UsePc R C

pub record Race (E R C : Type 0) : Type 0 where
  pub shared : SharedState E R C
  pub setter : SetPc R
  pub user : UsePc R C

module _ {R C : Type 0} where
  -- The predicate of `SyncGet`, and what follows.
  abbrev pub get_result : Option R → UsePc R C
  get_result none = use_asleep
  get_result (some r) = use_got r

  -- `notify_one`, with the one consumer that can wait.
  abbrev pub notify_one : UsePc R C → SetPc R → UsePc R C
  notify_one use_asleep set_notify = use_get
  notify_one p _ = p

module _ {E R C : Type 0} where
  abbrev pub create : E → SharedState E R C
  create inline = record {
    result_opt = none;
    callback_opt = none;
    executor = inline;
    state = initial;
    submitted = [];
  }

  pub set_executor : E → SharedState E R C → SharedState E R C
  set_executor e s = record s { executor = e }

  pub clear : SharedState E R C → SharedState E R C
  clear s = record s { result_opt = none; callback_opt = none }

  -- `SubmitCallbackIntoExecutor`; an optional without a value is undefined behaviour, here `none`.
  pub submit_with : Option R → Option C → SharedState E R C → Option (SharedState E R C)
  submit_with (some r) (some c) s =
      some (record s { submitted = s.submitted ++ ((s.executor, r, c) ∷ []) })
  submit_with none _ s = none
  submit_with (some r) none s = none

  pub submit_callback : SharedState E R C → Option (SharedState E R C)
  unfolding submit_with
  submit_callback s = submit_with s.result_opt s.callback_opt s

  -- One step of `SetResult`.
  pub set_step : SetPc R → SharedState E R C → SharedState E R C × SetPc R
  unfolding submit_callback
  set_step (set_start r) s = (record s { result_opt = some r }, set_notify)
  set_step set_notify s = (s, set_exchange)
  set_step set_exchange s =
      (record s { state = result_set }, if s.state == callback_set then set_submit else set_done)
  set_step set_submit s = elim (submit_callback s) [
    | none ↦ (s, set_crashed)
    | some s' ↦ (s', set_done)
  ]
  set_step set_done s = (s, set_done)
  set_step set_crashed s = (s, set_crashed)

  -- One step of `SetCallback` or `SyncGet`. `spurious` is read by a sleeper only.
  pub use_step : Bool → UsePc R C → SharedState E R C → SharedState E R C × UsePc R C
  unfolding submit_callback
  use_step spurious (use_callback c) s = (record s { callback_opt = some c }, use_exchange)
  use_step spurious use_exchange s =
      (record s { state = callback_set }, if s.state == result_set then use_submit else use_done)
  use_step spurious use_submit s = elim (submit_callback s) [
    | none ↦ (s, use_crashed)
    | some s' ↦ (s', use_done)
  ]
  use_step spurious use_done s = (s, use_done)
  use_step spurious use_crashed s = (s, use_crashed)
  use_step spurious use_get s = (s, get_result s.result_opt)
  use_step spurious use_asleep s = (s, if spurious then use_get else use_asleep)
  use_step spurious (use_got r) s = (s, use_got r)

  -- Thread 0 is the producer, thread 1 the consumer.
  unfoldable pub step : ℕ → Bool → Race E R C → Race E R C
  unfolding set_step use_step
  step zero spurious w =
      let (s, p) = set_step w.setter w.shared in
      record { shared = s; setter = p; user = notify_one w.user w.setter }
  step (suc i) spurious w =
      let (s, p) = use_step spurious w.user w.shared in record w { shared = s; user = p }

  abbrev pub init : E → R → UsePc R C → Race E R C
  init e r u = record { shared = create e; setter = set_start r; user = u }
