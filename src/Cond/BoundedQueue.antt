-- ===== src/Cond/BoundedQueue.antt =====
-- tasks/cond/semaphore/queue.hpp: a bounded queue guarded by three semaphores, and threads that
-- call `Put` and `Take`. A step is one access to one semaphore or to the buffer.
pub mod Invariant
pub mod Seen
pub mod Order
pub mod Safety
mod Tests
use concurrency_course_by_li.Base.{
  ℕ, zero, suc, ◌+◌, ◌-◌, ◌*◌, ◌/◌, ◌%◌, ◌^◌, ◌≤◌, ◌<◌, ◌≡◌, refl, sym, ap, ◌∙◌, subst, ◌≢◌, ◌↔◌,
  ◌⊎◌, inl, inr, Bool, true, false, not, ◌&&◌, ◌||◌, Option, none, some, List, [], ◌∷◌, ◌++◌, map,
  append_assoc, append-nil, arith, ltb, leb, ◌==◌, if◌then◌else◌, ltb→lt, lt→ltb, ==_iff,
  Bool-cases, Option-cases, length, length-append, size_mod, wrap_add, wrap_sub,
}
use concurrency_course_by_li.Threads.{
  update, tally, tally-all, tally-update, le-tally, add-le-tally, tally-eq-zero, of_tally-eq-zero,
  member_of_tally, others, others_add, others-update, tally-map, tally-map_le, tally-alone,
  tally-none, add-tally-le, run_inv_timed, World, commit, turn, run, run_inv,
}
use concurrency_course_by_li.Cond.Semaphore.{Semaphore, make, acquire, release}

-- The fields of the class. `taken` and `accepted` are not in the source: the values popped and
-- pushed so far, the oldest first.
pub record Queue (T : Type 0) : Type 0 where
  pub buffer : List T
  pub free_sem : Semaphore
  pub avail_sem : Semaphore
  pub mutex_sem : Semaphore
  pub taken : List T
  pub accepted : List T

-- The lines of `Put` and `Take`, which have the same shape: acquire a token, acquire the mutex,
-- change the buffer, release the mutex, release the token to the other semaphore. A thread sleeps
-- in an acquire that finds no token. The deque has no lock of its own, so that its changes take two
-- steps: `push_back` sees the buffer and then writes it, and `front` comes before `pop_front`.
pub data Line : Type 0 where
  want_token token_asleep want_mutex mutex_asleep at_buffer leave_mutex give_token : Line

pub data Pc (T : Type 0) : Type 0 where
  outside : Pc T
  putting : (value : T) → Line → Pc T
  pushing : (value : T) (seen : List T) → Pc T
  taking : Line → Pc T
  popping : (value : T) → Pc T

-- What a thread outside calls.
pub data Call (T : Type 0) : Type 0 where
  call_put : (value : T) → Call T
  call_take : Call T

-- Which semaphore's sleepers are notified, if any.
pub data Notify : Type 0 where
  nobody free_sleepers avail_sleepers mutex_sleepers : Notify

module _ {T : Type 0} where
  -- The constructor, at a capacity.
  abbrev pub create : ℕ → Queue T
  create capacity = record {
    buffer = [];
    free_sem = make capacity;
    avail_sem = make 0;
    mutex_sem = make 1;
    taken = [];
    accepted = [];
  }

  -- `Acquire` of one semaphore: the new state and the next line, or sleep.
  abbrev pub acquire_or_sleep :
      {P : Type 0}
      → Queue T
      → Option Semaphore
      → (Semaphore → Queue T)
      → P
      → P
      → Queue T × P × Notify
  acquire_or_sleep q none put_back go sleep = (q, sleep, nobody)
  acquire_or_sleep q (some s) put_back go sleep = (put_back s, go, nobody)

  -- One line of `Put`.
  pub put_line : T → Line → Queue T → Queue T × Pc T × Notify
  unfolding acquire release
  put_line v want_token q =
      acquire_or_sleep q (acquire q.free_sem) (λ s. record q { free_sem = s })
        (putting v want_mutex) (putting v token_asleep)
  put_line v token_asleep q = (q, putting v token_asleep, nobody)
  put_line v want_mutex q =
      acquire_or_sleep q (acquire q.mutex_sem) (λ s. record q { mutex_sem = s })
        (putting v at_buffer) (putting v mutex_asleep)
  put_line v mutex_asleep q = (q, putting v mutex_asleep, nobody)
  put_line v at_buffer q = (q, pushing v q.buffer, nobody)
  put_line v leave_mutex q =
      let (s, notify) = release q.mutex_sem in
      (record q { mutex_sem = s }, putting v give_token, if notify then mutex_sleepers else nobody)
  put_line v give_token q =
      let (s, notify) = release q.avail_sem in
      (record q { avail_sem = s }, outside, if notify then avail_sleepers else nobody)

  -- The end of `push_back`.
  pub write_back : T → List T → Queue T → Queue T × Pc T × Notify
  write_back v seen q = (
    record q { buffer = seen ++ (v ∷ []); accepted = q.accepted ++ (v ∷ []) },
    putting v leave_mutex,
    nobody,
  )

  -- `front`; on an empty buffer it would be undefined, and here the thread stays.
  pub take_front : List T → Queue T → Queue T × Pc T × Notify
  take_front [] q = (q, taking at_buffer, nobody)
  take_front (v ∷ rest) q = (q, popping v, nobody)

  -- `pop_front`, with the value that `Take` returns.
  pub pop_front : T → List T → Queue T → Queue T × Pc T × Notify
  pop_front v [] q = (q, popping v, nobody)
  pop_front v (x ∷ rest) q =
      (record q { buffer = rest; taken = q.taken ++ (v ∷ []) }, taking leave_mutex, nobody)

  -- One line of `Take`.
  pub take_line : Line → Queue T → Queue T × Pc T × Notify
  unfolding acquire release take_front
  take_line want_token q =
      acquire_or_sleep q (acquire q.avail_sem) (λ s. record q { avail_sem = s }) (taking want_mutex)
        (taking token_asleep)
  take_line token_asleep q = (q, taking token_asleep, nobody)
  take_line want_mutex q =
      acquire_or_sleep q (acquire q.mutex_sem) (λ s. record q { mutex_sem = s }) (taking at_buffer)
        (taking mutex_asleep)
  take_line mutex_asleep q = (q, taking mutex_asleep, nobody)
  take_line at_buffer q = take_front q.buffer q
  take_line leave_mutex q =
      let (s, notify) = release q.mutex_sem in
      (record q { mutex_sem = s }, taking give_token, if notify then mutex_sleepers else nobody)
  take_line give_token q =
      let (s, notify) = release q.free_sem in
      (record q { free_sem = s }, outside, if notify then free_sleepers else nobody)

  pub act : Call T → Queue T → Pc T → Queue T × Pc T × Notify
  unfolding put_line take_line write_back pop_front
  act (call_put v) q outside = put_line v want_token q
  act call_take q outside = take_line want_token q
  act c q (putting v l) = put_line v l q
  act c q (pushing v seen) = write_back v seen q
  act c q (taking l) = take_line l q
  act c q (popping v) = pop_front v q.buffer q

  -- `notify_all`: every sleeper of the semaphore evaluates its predicate again.
  abbrev pub wake : Notify → Pc T → Pc T
  wake free_sleepers (putting v token_asleep) = putting v want_token
  wake avail_sleepers (taking token_asleep) = taking want_token
  wake mutex_sleepers (putting v mutex_asleep) = putting v want_mutex
  wake mutex_sleepers (taking mutex_asleep) = taking want_mutex
  wake _ p = p

  unfoldable pub step : ℕ → Call T → World (Queue T) (Pc T) → World (Queue T) (Pc T)
  unfolding act
  step i c w =
      let (q, p, notify) = act c w.mem (w.pc i) in
      commit i (record w { pc = λ k. wake notify (w.pc k) }) (q, p)

  abbrev pub init : ℕ → World (Queue T) (Pc T)
  init capacity = record { mem = create capacity; pc = λ _. outside }
