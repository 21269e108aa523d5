-- ===== src/Futures/StdFuture/Invariant.antt =====
-- What holds between the two threads of tasks/futures/std/stdlike after every schedule.
use concurrency_course_by_li.Base.{
  ℕ, ◌≡◌, refl, inl, inr, Bool, true, false, List, arith, ◌==◌, Bool-cases,
}
use concurrency_course_by_li.Threads.{run, run_inv}
use concurrency_course_by_li.Futures.StdFuture.{
  Variant, monostate, value, exception_ptr, Outcome, Fulfilment, set_value, set_exception, SetPc,
  emplacing, locking, notifying, fulfilled, GetPc, entering, predicate, dozing, asleep, relocking,
  ready, finished, System, set_step, get_step, step, init, outcome, emplace, is_ready, take_result,
}

module _ {T E : Type 0} where
  -- What the variant holds.
  abbrev pub content : Fulfilment T E → SetPc → Variant T E
  content x emplacing = monostate
  content (set_value a) _ = value a
  content (set_exception e) _ = exception_ptr e

  abbrev pub has_lock : GetPc T E → Bool
  has_lock predicate = true
  has_lock dozing = true
  has_lock ready = true
  has_lock _ = false

  -- The places where the two can stand together: one that is about to sleep, or asleep, is still to
  -- be notified.
  abbrev pub together : SetPc → GetPc T E → Bool
  together notifying dozing = false
  together fulfilled dozing = false
  together fulfilled asleep = false
  together emplacing ready = false
  together emplacing (finished _) = false
  together _ _ = true

  abbrev pub result_or : Outcome T E → GetPc T E → Outcome T E
  result_or d (finished r) = r
  result_or d _ = d

  pub record Inv (x : Fulfilment T E) (y : System T E) : Type 0 where
    pub holds : y.state.v ≡ content x y.set
    pub locked : y.state.is_locked ≡ has_lock y.get
    pub meet : together y.set y.get ≡ true
    pub right : result_or (outcome x) y.get ≡ outcome x

  set-Inv :
      (x : Fulfilment T E) (set : SetPc) (y : System T E)
      → y.set ≡ set
      → Inv x y
      → Inv x (set_step x set y)
  unfolding set_step emplace
  set-Inv (set_value a) emplacing y e h = ground (arith, h)
  set-Inv (set_exception a) emplacing y e h = ground (arith, h)
  set-Inv (set_value a) locking y e h = ground (arith, h)
  set-Inv (set_exception a) locking y e h = ground (arith, h)
  set-Inv (set_value a) notifying y e h = ground (arith, h)
  set-Inv (set_exception a) notifying y e h = ground (arith, h)
  set-Inv x fulfilled y e h = h

  get-Inv :
      (x : Fulfilment T E) (spurious : Bool) (get : GetPc T E) (y : System T E)
      → y.get ≡ get
      → Inv x y
      → Inv x (get_step spurious get y)
  unfolding get_step is_ready take_result
  get-Inv x spurious entering y e h = ground (arith, h)
  get-Inv (set_value a) spurious predicate y e h = ground (arith, h)
  get-Inv (set_exception a) spurious predicate y e h = ground (arith, h)
  get-Inv x spurious dozing y e h = ground (arith, h)
  get-Inv x spurious asleep y e h = ground (arith, h)
  get-Inv x spurious relocking y e h = ground (arith, h)
  get-Inv (set_value a) spurious ready y e h = ground (arith, h)
  get-Inv (set_exception a) spurious ready y e h = ground (arith, h)
  get-Inv x spurious (finished r) y e h = h

  pub step-Inv :
      (x : Fulfilment T E) (i : ℕ) (spurious : Bool) (y : System T E)
      → Inv x y
      → Inv x (step x i spurious y)
  unfolding step
  step-Inv x i spurious y h = elim (Bool-cases (i == 0)) [
    | inl sets ↦ rw sets (set-Inv x y.set y refl h)
    | inr gets ↦ rw gets (get-Inv x spurious y.get y refl h)
  ]

  pub run-Inv : (x : Fulfilment T E) (ts : List (ℕ × Bool)) → Inv x (run (step x) 2 ts init)
  run-Inv x ts =
      run_inv (step x) 2 (Inv x) (λ i c y lt h. step-Inv x i c y h) ts init
        (record { holds = refl; locked = refl; meet = refl; right = refl })
