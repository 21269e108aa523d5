-- ===== src/Cond/WaitGroup.antt =====
-- tasks/cond/wait_group/wait_group.hpp: a wait group in two 32-bit words, a counter and a flag on
-- which `Wait` sleeps. The futex is a parameter; a sleeper may also wake up for no reason.
pub mod Invariant
pub mod Waiting
mod Tests
use concurrency_course_by_li.Base.{
  ℕ, zero, suc, ◌+◌, ◌-◌, ◌*◌, ◌/◌, ◌%◌, ◌^◌, ◌≤◌, ◌<◌, ◌≡◌, refl, sym, ap, ◌∙◌, subst, ◌≢◌, ◌↔◌,
  ◌⊎◌, inl, inr, Bool, true, false, not, ◌&&◌, ◌||◌, Option, none, some, List, [], ◌∷◌, ◌++◌, map,
  append_assoc, append-nil, arith, ltb, leb, ◌==◌, if◌then◌else◌, ltb→lt, lt→ltb, ==_iff,
  Bool-cases, Option-cases, length, length-append, size_mod, wrap_add, wrap_sub,
}
use concurrency_course_by_li.Threads.{
  update, tally, tally-update, le-tally, add-le-tally, tally-eq-zero, of_tally-eq-zero,
  member_of_tally, tally-map, tally-map_le, tally-alone, tally-none, add-tally-le, run_inv_timed,
  World, commit, turn, run, run_inv,
}
use concurrency_course_by_li.Futex.{Futex}

pub record WaitGroup : Type 0 where
  pub counter : ℕ
  pub done : ℕ

abbrev pub create : WaitGroup
create = record { counter = 0; done = 1 }

abbrev pub word_mod : ℕ
word_mod = 2 ^ 32

-- The `fetch_add` of `Add`, and whether it found 0.
pub add_counter : ℕ → WaitGroup → WaitGroup × Bool
add_counter count g = (record g { counter = (g.counter + count) % word_mod }, g.counter == 0)

-- `done_.store(0)` of `Add`.
pub store_open : WaitGroup → WaitGroup
store_open g = record g { done = 0 }

-- `Add` of a thread that runs alone.
pub add : ℕ → WaitGroup → WaitGroup
unfolding add_counter store_open
add count g = let (g', first) = add_counter count g in if first then store_open g' else g'

-- The `fetch_sub` of `Done`, and whether it was the last one.
pub sub_counter : WaitGroup → WaitGroup × Bool
sub_counter g =
    let rest = (g.counter + word_mod - 1) % word_mod in (record g { counter = rest }, rest == 0)

-- `done_.store(1)` of `Done`.
pub store_done : WaitGroup → WaitGroup
store_done g = record g { done = 1 }

-- The condition of the loop of `Wait`.
pub is_open : WaitGroup → Bool
is_open g = g.done == 0

-- Where a thread stands: it has some calls of `Done` to make, is in `Add` before the store, in
-- `Done` before the store or before `WakeAll`, in `Wait` at the condition or before the futex, or
-- asleep in it, or `Wait` has returned.
pub data Pc : Type 0 where
  owing : (calls : ℕ) → Pc
  opening : (calls : ℕ) → Pc
  storing : (calls : ℕ) → Pc
  waking : (calls : ℕ) → Pc
  checking parking asleep returned : Pc

pub data Call : Type 0 where
  call_add : (count : ℕ) → Call
  call_done call_wait : Call

-- A sleeper reads whether it wakes up by itself.
pub data Choice : Type 0 where
  choice : (call : Call) (spurious : Bool) → Choice

abbrev pub is_waking : Pc → Bool
is_waking (waking _) = true
is_waking _ = false

-- `WakeAll`.
abbrev pub wake : Pc → Pc
wake asleep = checking
wake p = p

module _ (f : Futex) where
  -- A call of a thread that owes `calls` calls of `Done`. As a one-shot group asks for, a thread
  -- only adds while it owes a `Done` itself, and within 32 bits, and waits when it owes none.
  pub start : Call → ℕ → WaitGroup → WaitGroup × Pc
  unfolding add_counter sub_counter
  start (call_add count) calls g =
      let (g', first) = add_counter count g in
      if ltb 0 calls && ltb (g.counter + count) word_mod
      then (g', if first then opening (calls + count) else owing (calls + count))
      else (g, owing calls)
  start call_done calls g =
      let (g', last) = sub_counter g in
      if ltb 0 calls
      then (g', if last then storing (calls - 1) else owing (calls - 1))
      else (g, owing calls)
  start call_wait calls g = (g, if calls == 0 then checking else owing calls)

  -- One access of one thread.
  pub act : Choice → WaitGroup → Pc → WaitGroup × Pc
  unfolding start store_open store_done is_open
  act (choice call spurious) g (owing calls) = start call calls g
  act _ g (opening calls) = (store_open g, owing calls)
  act _ g (storing calls) = (store_done g, waking calls)
  act _ g (waking calls) = (g, owing calls)
  act _ g checking = (g, if is_open g then parking else returned)
  act _ g parking = (g, if f.parks g.done 0 then asleep else checking)
  act (choice call spurious) g asleep = (g, if spurious then checking else asleep)
  act _ g returned = (g, returned)

  unfoldable pub step : ℕ → Choice → World WaitGroup Pc → World WaitGroup Pc
  unfolding act
  step i c w =
      let woken = if is_waking (w.pc i) then (λ k. wake (w.pc k)) else w.pc in
      commit i (record w { pc = woken }) (act c w.mem (w.pc i))

-- `count` threads with one call of `Done` each, after `Add(count)`.
abbrev pub init : ℕ → World WaitGroup Pc
init count = record { mem = add count create; pc = λ i. owing (if ltb i count then 1 else 0) }
