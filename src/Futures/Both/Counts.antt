-- ===== src/Futures/Both/Counts.antt =====
-- How the counts of tasks/futures/fun/exe/futures/combine/par/all.hpp go with the places of its
-- callbacks.
use concurrency_course_by_li.Base.{ℕ, ◌+◌, ◌≡◌, Bool, true, false, arith, ◌==◌, if◌then◌else◌}
use concurrency_course_by_li.Futures.Result.{Result, ok, err}
use concurrency_course_by_li.Futures.RefCounter.{RefCounter, fetch_sub_value, release_ref}
use concurrency_course_by_li.Futures.Both.{
  Shared, from_x, from_y, Pc, called, counting, setting, releasing, over, set_promise, store_x,
  store_y, start, act,
}

abbrev pub has_set : Pc → Bool
has_set (releasing b) = b
has_set (over b) = b
has_set _ = false

abbrev pub released : Pc → ℕ
released (over _) = 1
released _ = 0

abbrev pub has_stored : Pc → Bool
has_stored called = false
has_stored _ = true

pub no_set : (old : ℕ) → has_set (if old == 1 then setting else releasing false) ≡ false
no_set old = ground arith

module _ {E T : Type 0} where
  -- Whether a value was counted, and whether it was the last of two.
  abbrev counted : Result E T → Pc → ℕ
  counted (err _) _ = 0
  counted (ok _) called = 0
  counted (ok _) counting = 0
  counted (ok _) _ = 1

  abbrev pub last_value : Result E T → Pc → ℕ
  last_value (err _) _ = 0
  last_value (ok _) setting = 1
  last_value (ok _) (releasing true) = 1
  last_value (ok _) (over true) = 1
  last_value (ok _) _ = 0

  -- An error is always set.
  abbrev pub fits : Result E T → Pc → Bool
  fits (err _) counting = false
  fits (err _) setting = false
  fits (err _) (releasing false) = false
  fits (err _) (over false) = false
  fits _ _ = true

module _ {E X Y : Type 0} where
  -- The counts, apart from what was stored and set.
  pub record Counts (rx : Result E X) (ry : Result E Y) (c : RefCounter) (p q : Pc) : Type 0 where
    pub values : c.value + counted rx p + counted ry q ≡ 2
    pub refs : c.ref_count + released p + released q ≡ 2
    pub gone : c.is_deleted ≡ (c.ref_count == 0)
    pub no_fault : c.fault ≡ false
    pub fits_x : fits rx p ≡ true
    pub fits_y : fits ry q ≡ true
    pub last : last_value rx p + last_value ry q ≡ (if c.value == 0 then 1 else 0)

  pub x-Counts :
      (rx : Result E X) (ry : Result E Y) (p q : Pc) (s : Shared E X Y)
      → Counts rx ry s.counter p q
      → let r = act (from_x rx) p s in Counts rx ry r.0.counter r.1 q
  unfolding act start set_promise store_x fetch_sub_value release_ref
  x-Counts (ok x) ry called q s h = ground (arith, h)
  x-Counts (err e) ry called q s h = ground (arith, h)
  x-Counts (ok x) ry counting q s h = ground (arith, h)
  x-Counts (err e) ry counting q s h = absurd (ground (arith, h.fits_x))
  x-Counts (ok x) ry setting q s h = ground (arith, h)
  x-Counts (err e) ry setting q s h = absurd (ground (arith, h.fits_x))
  x-Counts (ok x) ry (releasing b) q s h = ground (arith, h)
  x-Counts (err e) ry (releasing b) q s h = ground (arith, h)
  x-Counts rx ry (over b) q s h = h

  pub y-Counts :
      (rx : Result E X) (ry : Result E Y) (p q : Pc) (s : Shared E X Y)
      → Counts rx ry s.counter p q
      → let r = act (from_y ry) q s in Counts rx ry r.0.counter p r.1
  unfolding act start set_promise store_y fetch_sub_value release_ref
  y-Counts rx (ok y) p called s h = ground (arith, h)
  y-Counts rx (err e) p called s h = ground (arith, h)
  y-Counts rx (ok y) p counting s h = ground (arith, h)
  y-Counts rx (err e) p counting s h = absurd (ground (arith, h.fits_y))
  y-Counts rx (ok y) p setting s h = ground (arith, h)
  y-Counts rx (err e) p setting s h = absurd (ground (arith, h.fits_y))
  y-Counts rx (ok y) p (releasing b) s h = ground (arith, h)
  y-Counts rx (err e) p (releasing b) s h = ground (arith, h)
  y-Counts rx ry p (over b) s h = h
