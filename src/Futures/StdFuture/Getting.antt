-- ===== src/Futures/StdFuture/Getting.antt =====
-- What `Get` of tasks/futures/std/stdlike returns, and that it is not left asleep.
use concurrency_course_by_li.Base.{ℕ, ◌-◌, ◌≤◌, ◌≡◌, refl, Bool, List, arith}
use concurrency_course_by_li.Threads.{run}
use concurrency_course_by_li.Futures.StdFuture.{
  Outcome, Fulfilment, set_value, set_exception, fulfilled, GetPc, entering, predicate, dozing,
  asleep, relocking, ready, finished, System, get_step, step, init, outcome, is_ready, take_result,
}
use concurrency_course_by_li.Futures.StdFuture.Invariant.{Inv, run-Inv, step-Inv}

-- How many turns a call of `Get` takes once the promise is fulfilled.
module _ {T E : Type 0} where
  abbrev turns_left : GetPc T E → ℕ
  turns_left entering = 3
  turns_left relocking = 3
  turns_left predicate = 2
  turns_left ready = 1
  turns_left (finished _) = 0
  turns_left _ = 4

  get_closer :
      (x : Fulfilment T E) (spurious : Bool) (get : GetPc T E) (y : System T E)
      → y.get ≡ get
      → y.set ≡ fulfilled
      → Inv x y
      → let y' = get_step spurious get y in
        (turns_left y'.get ≤ turns_left get - 1) × (y'.set ≡ fulfilled)
  unfolding get_step is_ready take_result
  get_closer x spurious entering y e f h = ground (arith, h)
  get_closer (set_value _) spurious predicate y e f h = ground (arith, h)
  get_closer (set_exception _) spurious predicate y e f h = ground (arith, h)
  get_closer x spurious dozing y e f h = absurd (ground (arith, h))
  get_closer x spurious asleep y e f h = absurd (ground (arith, h))
  get_closer x spurious relocking y e f h = ground (arith, h)
  get_closer (set_value _) spurious ready y e f h = ground (arith, h)
  get_closer (set_exception _) spurious ready y e f h = ground (arith, h)
  get_closer x spurious (finished r) y e f h = ground (arith, h)

  soon : (x : Fulfilment T E) (y : System T E) → y.set ≡ fulfilled → Inv x y → turns_left y.get ≤ 3
  soon x y f h = ground (arith, h)

  over :
      (x : Fulfilment T E) (y : System T E)
      → turns_left y.get ≤ 0
      → Inv x y
      → y.get ≡ finished (outcome x)
  over x y f h = ground (arith, h)

module _ {T E : Type 0} (x : Fulfilment T E) (ts : List (ℕ × Bool)) where
  abbrev reached : System T E
  reached = run (step x) 2 ts init

  -- After every schedule of one thread that fulfils the promise and one that calls `Get`, if `Get` is
  -- over, then it has returned the value of `SetValue`, or thrown the exception of `SetException`.
  pub get_outcome : (r : Outcome T E) → reached.get ≡ finished r → r ≡ outcome x
  get_outcome r e = ground (arith, run-Inv x ts)

  -- After every schedule in which `SetValue` or `SetException` has returned, three further turns of
  -- the thread that calls `Get` end the call, whatever sleepers do.
  pub get_ends :
      (a b c : Bool)
      → reached.set ≡ fulfilled
      → (step x 1 c (step x 1 b (step x 1 a reached))).get ≡ finished (outcome x)
  unfolding step
  get_ends a b c e =
      let h0 = run-Inv x ts in
      let h1 = step-Inv x 1 a _ h0 in
      let h2 = step-Inv x 1 b _ h1 in
      let (l1, f1) = get_closer x a _ _ refl e h0 in
      let (l2, f2) = get_closer x b _ _ refl f1 h1 in
      let (l3, f3) = get_closer x c _ _ refl f2 h2 in
      over x _ (omega (arith, soon x _ e h0, l1, l2, l3)) (step-Inv x 1 c _ h2)
