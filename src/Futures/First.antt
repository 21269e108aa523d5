-- ===== src/Futures/First.antt =====
-- tasks/futures/fun/exe/futures/combine/par/first.hpp: the callbacks that `First` subscribes to its
-- two futures, which share a `RefCounter` (exe/support/ref_counter.hpp) and the output promise.
pub mod Invariant
pub mod Outcome
mod Tests
use concurrency_course_by_li.Base.{
  ℕ, zero, suc, ◌+◌, ◌-◌, ◌*◌, ◌/◌, ◌%◌, ◌^◌, ◌≤◌, ◌<◌, ◌≡◌, refl, sym, ap, ◌∙◌, subst, ◌≢◌, ◌↔◌,
  ◌⊎◌, inl, inr, Bool, true, false, not, ◌&&◌, ◌||◌, Option, none, some, List, [], ◌∷◌, ◌++◌, map,
  append_assoc, append-nil, arith, ltb, leb, ◌==◌, if◌then◌else◌, ltb→lt, lt→ltb, ==_iff,
  Bool-cases, Option-cases, length, length-append, size_mod, wrap_add, wrap_sub,
}
use concurrency_course_by_li.Futures.Result.{Result, ok, err}
use concurrency_course_by_li.Futures.RefCounter.{
  RefCounter, construct, fetch_sub_value, release_ref,
}

-- What the callbacks share. `sets` is what `p` was set to, the oldest first.
pub record Shared (E T : Type 0) : Type 0 where
  pub counter : RefCounter
  pub sets : List (Result E T)

-- A callback: before its first access, before `Set` of the last error, before `ReleaseRef`, and
-- behind it; with whether it has set the promise.
pub data Pc : Type 0 where
  called setting : Pc
  releasing : (has_set : Bool) → Pc
  over : (has_set : Bool) → Pc

module _ {E T : Type 0} where
  pub set_promise : Result E T → Shared E T → Shared E T
  set_promise r s = record s { sets = s.sets ++ (r ∷ []) }

  -- One access of a callback that was called with `r`.
  pub act : Result E T → Pc → Shared E T → Shared E T × Pc
  unfolding set_promise fetch_sub_value release_ref
  act (ok v) called s = (set_promise (ok v) s, releasing true)
  act (err e) called s =
      let (c, old) = fetch_sub_value s.counter in
      (record s { counter = c }, if old == 1 then setting else releasing false)
  act r setting s = (set_promise r s, releasing true)
  act r (releasing b) s = (record s { counter = release_ref s.counter }, over b)
  act r (over b) s = (s, over b)

-- The callback of `f1`, that of `f2`, and what they share.
pub record Run (E T : Type 0) : Type 0 where
  pub shared : Shared E T
  pub cb1 : Pc
  pub cb2 : Pc

module _ {E T : Type 0} where
  -- A turn: whether the callback of `f1` is to move.
  unfoldable pub step : Result E T → Result E T → Bool → Run E T → Run E T
  unfolding act
  step r1 r2 true w = let (s, p) = act r1 w.cb1 w.shared in record w { shared = s; cb1 = p }
  step r1 r2 false w = let (s, p) = act r2 w.cb2 w.shared in record w { shared = s; cb2 = p }

  unfoldable pub first : Result E T → Result E T → List Bool → Run E T → Run E T
  unfolding step
  first r1 r2 [] w = w
  first r1 r2 (t ∷ ts) w = first r1 r2 ts (step r1 r2 t w)

  pub init : Run E T
  unfolding construct
  init = record {
    shared = record { counter = construct 2 2; sets = [] };
    cb1 = called;
    cb2 = called;
  }
