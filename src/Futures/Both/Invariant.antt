-- ===== src/Futures/Both/Invariant.antt =====
-- What the callbacks of tasks/futures/fun/exe/futures/combine/par/all.hpp have stored and set.
use concurrency_course_by_li.Base.{
  ℕ, ◌+◌, ◌<◌, ◌≡◌, refl, Bool, true, false, List, [], ◌∷◌, ◌++◌, arith,
}
use concurrency_course_by_li.Futures.Result.{Result, ok, err}
use concurrency_course_by_li.Futures.RefCounter.{construct, fetch_sub_value, release_ref}
use concurrency_course_by_li.Futures.Both.{
  Shared, from_x, from_y, Pc, called, counting, setting, releasing, over, set_promise, store_x,
  store_y, start, act, Run, step, both, init,
}
use concurrency_course_by_li.Futures.First.Invariant.{Sets, set-Sets, swap-Sets}
use concurrency_course_by_li.Futures.Both.Counts.{
  has_set, has_stored, last_value, no_set, Counts, x-Counts, y-Counts,
}

module _ {E T : Type 0} where
  -- A value that was counted was stored.
  abbrev pub Stored : Result E T → Pc → T → Type 0
  Stored (ok v) p t = has_stored p ≡ true → t ≡ v
  Stored (err _) p t = ◌≡◌ {A = ℕ} 0 0

  fresh-Stored : (r : Result E T) (t : T) → Stored r called t
  fresh-Stored (ok v) t = λ e. absurd (ground (arith, e))
  fresh-Stored (err e) t = refl

module _ {E X Y : Type 0} where
  -- What each callback sets, if it does.
  abbrev pub set_by_x : Result E X → Result E Y → Result E (X × Y)
  set_by_x (ok x) (ok y) = ok (x, y)
  set_by_x (err e) _ = err e
  set_by_x (ok x) (err e) = err e

  abbrev pub set_by_y : Result E X → Result E Y → Result E (X × Y)
  set_by_y (ok x) (ok y) = ok (x, y)
  set_by_y _ (err e) = err e
  set_by_y (err e) (ok y) = err e

  pub record Inv (rx : Result E X) (ry : Result E Y) (s : Shared E X Y) (p q : Pc) : Type 0 where
    pub counts : Counts rx ry s.counter p q
    pub stored_x : Stored rx p s.res_tup.0
    pub stored_y : Stored ry q s.res_tup.1
    pub sets : Sets (set_by_x rx ry) (set_by_y rx ry) (has_set p) (has_set q) s.sets

  -- The tuple is complete once the last value was counted.
  full :
      (x : X) (y : Y) (p q : Pc) (s : Shared E X Y)
      → 0 < last_value {E = E} (ok x) p + last_value {E = E} (ok y) q
      → Inv (ok x) (ok y) s p q
      → s.res_tup ≡ (x, y)
  full x y p q s won h =
      let px : has_stored p ≡ true = ground (arith, h.counts, won) in
      let qy : has_stored q ≡ true = ground (arith, h.counts, won) in
      rw (h.stored_x px, h.stored_y qy) refl

  x-Inv :
      (rx : Result E X) (ry : Result E Y) (p q : Pc) (s : Shared E X Y)
      → Inv rx ry s p q
      → let r = act (from_x rx) p s in Inv rx ry r.0 r.1 q
  unfolding act start set_promise store_x fetch_sub_value release_ref
  x-Inv (ok x) ry called q s h = record {
    counts = x-Counts (ok x) ry called q s h.counts;
    stored_x = λ _. refl;
    stored_y = h.stored_y;
    sets = h.sets;
  }
  x-Inv (err e) ry called q s h = record {
    counts = x-Counts (err e) ry called q s h.counts;
    stored_x = refl;
    stored_y = h.stored_y;
    sets = set-Sets (err e) (set_by_y (err e) ry) (has_set q) s.sets h.sets;
  }
  x-Inv (ok x) ry counting q s h = record {
    counts = x-Counts (ok x) ry counting q s h.counts;
    stored_x = λ _. h.stored_x refl;
    stored_y = h.stored_y;
    sets = rw (no_set s.counter.value) h.sets;
  }
  x-Inv (err e) ry counting q s h = absurd (ground (arith, h.counts.fits_x))
  x-Inv (ok x) (ok y) setting q s h = record {
    counts = x-Counts (ok x) (ok y) setting q s h.counts;
    stored_x = λ _. h.stored_x refl;
    stored_y = h.stored_y;
    sets =
        rw (full x y setting q s (omega arith) h)
          (set-Sets (ok (x, y)) (ok (x, y)) (has_set q) s.sets h.sets);
  }
  x-Inv (ok x) (err e) setting q s h = absurd (ground (arith, h.counts))
  x-Inv (err e) ry setting q s h = absurd (ground (arith, h.counts.fits_x))
  x-Inv (ok x) ry (releasing b) q s h = record {
    counts = x-Counts (ok x) ry (releasing b) q s h.counts;
    stored_x = λ _. h.stored_x refl;
    stored_y = h.stored_y;
    sets = h.sets;
  }
  x-Inv (err e) ry (releasing b) q s h = record {
    counts = x-Counts (err e) ry (releasing b) q s h.counts;
    stored_x = refl;
    stored_y = h.stored_y;
    sets = h.sets;
  }
  x-Inv rx ry (over b) q s h = h

  -- The second callback sets the promise.
  set-Sets_y :
      (r1 r2 : Result E (X × Y)) (b : Bool) (l : List (Result E (X × Y)))
      → Sets r1 r2 b false l
      → Sets r1 r2 b true (l ++ (r2 ∷ []))
  set-Sets_y r1 r2 b l h =
      swap-Sets r2 r1 true b _ (set-Sets r2 r1 b l (swap-Sets r1 r2 b false l h))

  y-Inv :
      (rx : Result E X) (ry : Result E Y) (p q : Pc) (s : Shared E X Y)
      → Inv rx ry s p q
      → let r = act (from_y ry) q s in Inv rx ry r.0 p r.1
  unfolding act start set_promise store_y fetch_sub_value release_ref
  y-Inv rx (ok y) p called s h = record {
    counts = y-Counts rx (ok y) p called s h.counts;
    stored_x = h.stored_x;
    stored_y = λ _. refl;
    sets = h.sets;
  }
  y-Inv (ok x) (err e) p called s h = record {
    counts = y-Counts (ok x) (err e) p called s h.counts;
    stored_x = h.stored_x;
    stored_y = refl;
    sets = set-Sets_y (err e) (err e) (has_set p) s.sets h.sets;
  }
  y-Inv (err d) (err e) p called s h = record {
    counts = y-Counts (err d) (err e) p called s h.counts;
    stored_x = h.stored_x;
    stored_y = refl;
    sets = set-Sets_y (err d) (err e) (has_set p) s.sets h.sets;
  }
  y-Inv rx (ok y) p counting s h = record {
    counts = y-Counts rx (ok y) p counting s h.counts;
    stored_x = h.stored_x;
    stored_y = λ _. h.stored_y refl;
    sets = rw (no_set s.counter.value) h.sets;
  }
  y-Inv rx (err e) p counting s h = absurd (ground (arith, h.counts.fits_y))
  y-Inv (ok x) (ok y) p setting s h = record {
    counts = y-Counts (ok x) (ok y) p setting s h.counts;
    stored_x = h.stored_x;
    stored_y = λ _. h.stored_y refl;
    sets =
        rw (full x y p setting s (omega arith) h)
          (set-Sets_y (ok (x, y)) (ok (x, y)) (has_set p) s.sets h.sets);
  }
  y-Inv (err e) (ok y) p setting s h = absurd (ground (arith, h.counts))
  y-Inv rx (err e) p setting s h = absurd (ground (arith, h.counts.fits_y))
  y-Inv rx (ok y) p (releasing b) s h = record {
    counts = y-Counts rx (ok y) p (releasing b) s h.counts;
    stored_x = h.stored_x;
    stored_y = λ _. h.stored_y refl;
    sets = h.sets;
  }
  y-Inv rx (err e) p (releasing b) s h = record {
    counts = y-Counts rx (err e) p (releasing b) s h.counts;
    stored_x = h.stored_x;
    stored_y = refl;
    sets = h.sets;
  }
  y-Inv rx ry p (over b) s h = h

  abbrev pub Holds : Result E X → Result E Y → Run E X Y → Type 0
  Holds rx ry w = Inv rx ry w.shared w.cbx w.cby

  pub both-Inv :
      (rx : Result E X) (ry : Result E Y) (ts : List Bool) (w : Run E X Y)
      → Holds rx ry w
      → Holds rx ry (both rx ry ts w)
  unfolding both step
  both-Inv rx ry [] w h = h
  both-Inv rx ry (true ∷ ts) w h = both-Inv rx ry ts _ (x-Inv rx ry w.cbx w.cby w.shared h)
  both-Inv rx ry (false ∷ ts) w h = both-Inv rx ry ts _ (y-Inv rx ry w.cbx w.cby w.shared h)

  pub init-Inv : (rx : Result E X) (ry : Result E Y) (dx : X) (dy : Y) → Holds rx ry (init dx dy)
  unfolding init construct
  init-Inv rx ry dx dy = record {
    counts = ground arith;
    stored_x = fresh-Stored rx dx;
    stored_y = fresh-Stored ry dy;
    sets = refl;
  }
