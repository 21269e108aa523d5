-- ===== src/Futures/First/Invariant.antt =====
-- How the counts of tasks/futures/fun/exe/futures/combine/par/first.hpp go with the places of its
-- callbacks.
use concurrency_course_by_li.Base.{
  ℕ, ◌+◌, ◌≡◌, refl, ◌⊎◌, inl, inr, Bool, true, false, List, [], ◌∷◌, ◌++◌, arith, ◌==◌,
  if◌then◌else◌,
}
use concurrency_course_by_li.Futures.Result.{Result, ok, err}
use concurrency_course_by_li.Futures.RefCounter.{construct, fetch_sub_value, release_ref}
use concurrency_course_by_li.Futures.First.{
  Shared, Pc, called, setting, releasing, over, set_promise, act, Run, step, first, init,
}

abbrev pub has_set : Pc → Bool
has_set (releasing b) = b
has_set (over b) = b
has_set _ = false

no_set : (old : ℕ) → has_set (if old == 1 then setting else releasing false) ≡ false
no_set old = ground arith

abbrev pub released : Pc → ℕ
released (over _) = 1
released _ = 0

module _ {E T : Type 0} where
  -- Whether an error was counted, and whether it was the last of two.
  abbrev counted : Result E T → Pc → ℕ
  counted (ok _) _ = 0
  counted (err _) called = 0
  counted (err _) _ = 1

  abbrev pub last_error : Result E T → Pc → ℕ
  last_error (ok _) _ = 0
  last_error (err _) setting = 1
  last_error (err _) (releasing true) = 1
  last_error (err _) (over true) = 1
  last_error (err _) _ = 0

  -- A success is always set.
  abbrev pub fits : Result E T → Pc → Bool
  fits (ok _) setting = false
  fits (ok _) (releasing false) = false
  fits (ok _) (over false) = false
  fits _ _ = true

  -- What the promise was set to, by whom.
  abbrev pub Sets : Result E T → Result E T → Bool → Bool → List (Result E T) → Type 0
  Sets r1 r2 false false l = l ≡ []
  Sets r1 r2 true false l = l ≡ r1 ∷ []
  Sets r1 r2 false true l = l ≡ r2 ∷ []
  Sets r1 r2 true true l = (l ≡ r1 ∷ r2 ∷ []) ⊎ (l ≡ r2 ∷ r1 ∷ [])

  pub record Inv (r1 r2 : Result E T) (w : Run E T) : Type 0 where
    pub values : w.shared.counter.value + counted r1 w.cb1 + counted r2 w.cb2 ≡ 2
    pub refs : w.shared.counter.ref_count + released w.cb1 + released w.cb2 ≡ 2
    pub gone : w.shared.counter.is_deleted ≡ (w.shared.counter.ref_count == 0)
    pub no_fault : w.shared.counter.fault ≡ false
    pub fits1 : fits r1 w.cb1 ≡ true
    pub fits2 : fits r2 w.cb2 ≡ true
    pub last :
        last_error r1 w.cb1 + last_error r2 w.cb2 ≡ (if w.shared.counter.value == 0 then 1 else 0)
    pub sets : Sets r1 r2 (has_set w.cb1) (has_set w.cb2) w.shared.sets

  -- The callbacks are alike, so that their order does not matter.
  abbrev swap : Run E T → Run E T
  swap w = record w { cb1 = w.cb2; cb2 = w.cb1 }

  pub swap-Sets :
      (r1 r2 : Result E T) (b c : Bool) (l : List (Result E T))
      → Sets r1 r2 b c l
      → Sets r2 r1 c b l
  swap-Sets r1 r2 false false l h = h
  swap-Sets r1 r2 true false l h = h
  swap-Sets r1 r2 false true l h = h
  swap-Sets r1 r2 true true l (inl h) = inr h
  swap-Sets r1 r2 true true l (inr h) = inl h

  swap-Inv : (r1 r2 : Result E T) (w : Run E T) → Inv r1 r2 w → Inv r2 r1 (swap w)
  swap-Inv r1 r2 w h = record {
    values = omega (arith, h.values);
    refs = omega (arith, h.refs);
    gone = h.gone;
    no_fault = h.no_fault;
    fits1 = h.fits2;
    fits2 = h.fits1;
    last = ground (arith, h.last);
    sets = swap-Sets r1 r2 (has_set w.cb1) (has_set w.cb2) w.shared.sets h.sets;
  }

  -- The first callback sets the promise.
  pub set-Sets :
      (r1 r2 : Result E T) (c : Bool) (l : List (Result E T))
      → Sets r1 r2 false c l
      → Sets r1 r2 true c (l ++ (r1 ∷ []))
  set-Sets r1 r2 false l h = rw h refl
  set-Sets r1 r2 true l h = inr (rw h refl)

  abbrev at : Shared E T → Pc → Pc → Run E T
  at s p q = record { shared = s; cb1 = p; cb2 = q }

  act-Inv :
      (r1 r2 : Result E T) (p q : Pc) (s : Shared E T)
      → Inv r1 r2 (at s p q)
      → Inv r1 r2 (step r1 r2 true (at s p q))
  unfolding step act set_promise fetch_sub_value release_ref
  act-Inv (ok v) r2 called q s h = record {
    values = h.values;
    refs = h.refs;
    gone = h.gone;
    no_fault = h.no_fault;
    fits1 = refl;
    fits2 = h.fits2;
    last = h.last;
    sets = set-Sets (ok v) r2 (has_set q) s.sets h.sets;
  }
  act-Inv (err e) r2 called q s h = record {
    values = ground (arith, h);
    refs = ground (arith, h);
    gone = h.gone;
    no_fault = ground (arith, h);
    fits1 = refl;
    fits2 = h.fits2;
    last = ground (arith, h);
    sets = rw (no_set s.counter.value) h.sets;
  }
  act-Inv r1 r2 setting q s h = record {
    values = ground (arith, h);
    refs = h.refs;
    gone = h.gone;
    no_fault = h.no_fault;
    fits1 = ground (arith, h);
    fits2 = h.fits2;
    last = ground (arith, h);
    sets = set-Sets r1 r2 (has_set q) s.sets h.sets;
  }
  act-Inv r1 r2 (releasing b) q s h = record {
    values = ground (arith, h);
    refs = ground (arith, h);
    gone = ground (arith, h);
    no_fault = ground (arith, h);
    fits1 = ground (arith, h);
    fits2 = h.fits2;
    last = ground (arith, h);
    sets = h.sets;
  }
  act-Inv r1 r2 (over b) q s h = h

  step-Inv :
      (r1 r2 : Result E T) (t : Bool) (w : Run E T) → Inv r1 r2 w → Inv r1 r2 (step r1 r2 t w)
  unfolding step
  step-Inv r1 r2 true w h = act-Inv r1 r2 w.cb1 w.cb2 w.shared h
  step-Inv r1 r2 false w h =
      swap-Inv r2 r1 _ (act-Inv r2 r1 w.cb2 w.cb1 w.shared (swap-Inv r1 r2 w h))

  pub first-Inv :
      (r1 r2 : Result E T) (ts : List Bool) (w : Run E T)
      → Inv r1 r2 w
      → Inv r1 r2 (first r1 r2 ts w)
  unfolding first
  first-Inv r1 r2 [] w h = h
  first-Inv r1 r2 (t ∷ ts) w h = first-Inv r1 r2 ts (step r1 r2 t w) (step-Inv r1 r2 t w h)

  pub init-Inv : (r1 r2 : Result E T) → Inv r1 r2 init
  unfolding init construct
  init-Inv r1 r2 = record {
    values = ground arith;
    refs = refl;
    gone = refl;
    no_fault = refl;
    fits1 = ground arith;
    fits2 = ground arith;
    last = ground arith;
    sets = refl;
  }
