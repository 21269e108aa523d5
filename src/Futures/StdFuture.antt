-- ===== src/Futures/StdFuture.antt =====
-- tasks/futures/std/stdlike: `Promise` and `Future` over a shared state that one thread sets and one
-- thread gets. The mutex and the condition variable are those of the standard library.
pub mod Invariant
pub mod Getting
mod Tests
use concurrency_course_by_li.Base.{
  ℕ, zero, suc, ◌+◌, ◌-◌, ◌*◌, ◌/◌, ◌%◌, ◌^◌, ◌≤◌, ◌<◌, ◌≡◌, refl, sym, ap, ◌∙◌, subst, ◌≢◌, ◌↔◌,
  ◌⊎◌, inl, inr, Bool, true, false, not, ◌&&◌, ◌||◌, Option, none, some, List, [], ◌∷◌, ◌++◌, map,
  append_assoc, append-nil, arith, ltb, leb, ◌==◌, if◌then◌else◌, ltb→lt, lt→ltb, ==_iff,
  Bool-cases, Option-cases, length, length-append, size_mod, wrap_add, wrap_sub,
}
use concurrency_course_by_li.Threads.{
  update, tally, tally-update, le-tally, add-le-tally, tally-eq-zero, of_tally-eq-zero,
  member_of_tally, tally-map, tally-map_le, tally-alone, tally-none, add-tally-le, run_inv_timed,
  World, commit, turn, run, run_inv,
}

-- Values of type `T` and exceptions of type `E`.
module _ (T E : Type 0) where
  -- `std::variant<std::monostate, T, std::exception_ptr>`.
  pub data Variant : Type 0 where
    monostate : Variant
    value : (v : T) → Variant
    exception_ptr : (e : E) → Variant

  -- What `Get` does: it returns a value or throws.
  pub data Outcome : Type 0 where
    returned : (v : T) → Outcome
    thrown : (e : E) → Outcome

  -- What the promise is fulfilled with.
  pub data Fulfilment : Type 0 where
    set_value : (v : T) → Fulfilment
    set_exception : (e : E) → Fulfilment

-- The shared state; `is_locked` is the mutex.
pub record SharedState (T E : Type 0) : Type 0 where
  pub v : Variant T E
  pub is_locked : Bool

-- `SetValue` or `SetException`: before the emplacement, before the empty critical section, before
-- `notify_one`, and behind it.
pub data SetPc : Type 0 where
  emplacing locking notifying fulfilled : SetPc

-- `Get`: before the lock, at the predicate and before the sleep, both with the lock, asleep, before
-- the lock again, with the lock and a result at hand, and behind it.
pub data GetPc (T E : Type 0) : Type 0 where
  entering predicate dozing asleep relocking ready : GetPc T E
  finished : (r : Outcome T E) → GetPc T E

-- The two threads and what they share.
pub record System (T E : Type 0) : Type 0 where
  pub state : SharedState T E
  pub set : SetPc
  pub get : GetPc T E

module _ {T E : Type 0} where
  abbrev pub create : SharedState T E
  create = record { v = monostate; is_locked = false }

  -- `v_.emplace` of `SetValue` and of `SetException`.
  pub emplace : Fulfilment T E → SharedState T E → SharedState T E
  emplace (set_value x) s = record s { v = value x }
  emplace (set_exception x) s = record s { v = exception_ptr x }

  -- `v_.index() != 0`.
  pub is_ready : Variant T E → Bool
  is_ready monostate = false
  is_ready _ = true

  -- The end of `Get`, where the variant holds something.
  pub take_result : Variant T E → Option (Outcome T E)
  take_result monostate = none
  take_result (value x) = some (returned x)
  take_result (exception_ptr x) = some (thrown x)

  -- `notify_one` of the condition variable, where one thread can sleep.
  abbrev pub notify_one : GetPc T E → GetPc T E
  notify_one asleep = relocking
  notify_one p = p

  -- A turn of the thread that sets. It waits while the mutex is locked.
  pub set_step : Fulfilment T E → SetPc → System T E → System T E
  unfolding emplace
  set_step x emplacing y = record y { state = emplace x y.state; set = locking }
  set_step x locking y = if y.state.is_locked then y else record y { set = notifying }
  set_step x notifying y = record y { get = notify_one y.get; set = fulfilled }
  set_step x fulfilled y = y

  -- Whether the predicate lets `Get` pass; a thread that is to sleep still has the lock.
  abbrev lock : SharedState T E → SharedState T E
  lock s = record s { is_locked = true }

  abbrev unlock : SharedState T E → SharedState T E
  unlock s = record s { is_locked = false }

  -- A turn of the thread that gets. `spurious`: whether a sleeper wakes up by itself.
  pub get_step : Bool → GetPc T E → System T E → System T E
  unfolding is_ready take_result
  get_step spurious entering y =
      if y.state.is_locked then y else record y { state = lock y.state; get = predicate }
  get_step spurious predicate y = record y { get = if is_ready y.state.v then ready else dozing }
  get_step spurious dozing y = record y { state = unlock y.state; get = asleep }
  get_step spurious asleep y = record y { get = if spurious then relocking else asleep }
  get_step spurious relocking y =
      if y.state.is_locked then y else record y { state = lock y.state; get = predicate }
  get_step spurious ready y = elim (take_result y.state.v) [
    | none ↦ y
    | some r ↦ record y { state = unlock y.state; get = finished r }
  ]
  get_step spurious (finished r) y = y

  -- Thread 0 sets, thread 1 gets.
  unfoldable pub step : Fulfilment T E → ℕ → Bool → System T E → System T E
  unfolding set_step get_step
  step x i spurious y = if i == 0 then set_step x y.set y else get_step spurious y.get y

  abbrev pub init : System T E
  init = record { state = create; set = emplacing; get = entering }

  -- What `Get` is to do.
  abbrev pub outcome : Fulfilment T E → Outcome T E
  outcome (set_value x) = returned x
  outcome (set_exception x) = thrown x
