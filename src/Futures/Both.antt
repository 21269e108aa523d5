-- ===== src/Futures/Both.antt =====
-- tasks/futures/fun/exe/futures/combine/par/all.hpp: the callbacks that `Both` subscribes to its two
-- futures, which share a `RefCounterForBoth` and the output promise.
pub mod Counts
pub mod Invariant
pub mod Outcome
mod Tests
use concurrency_course_by_li.Base.{
  ℕ, zero, suc, ◌+◌, ◌-◌, ◌*◌, ◌/◌, ◌%◌, ◌^◌, ◌≤◌, ◌<◌, ◌≡◌, refl, sym, ap, ◌∙◌, subst, ◌≢◌, ◌↔◌,
  ◌⊎◌, inl, inr, Bool, true, false, not, ◌&&◌, ◌||◌, Option, none, some, List, [], ◌∷◌, ◌++◌, map,
  append_assoc, append-nil, arith, ltb, leb, ◌==◌, if◌then◌else◌, ltb→lt, lt→ltb, ==_iff,
  Bool-cases, Option-cases, length, length-append, size_mod, wrap_add, wrap_sub,
}
use concurrency_course_by_li.Futures.Result.{Result, ok, err}
use concurrency_course_by_li.Futures.RefCounter.{
  RefCounter, construct, fetch_sub_value, release_ref,
}

-- What the callbacks share: `counter` and `res_tup` make up the `RefCounterForBoth`. `sets` is what
-- `p` was set to, the oldest first.
pub record Shared (E X Y : Type 0) : Type 0 where
  pub counter : RefCounter
  pub res_tup : X × Y
  pub sets : List (Result E (X × Y))

-- The call of `cb`, with `is_x` or without.
pub data Given (E X Y : Type 0) : Type 0 where
  from_x : (rx : Result E X) → Given E X Y
  from_y : (ry : Result E Y) → Given E X Y

-- A callback: before its first access, before `fetch_sub`, before `Set` of the tuple, before
-- `ReleaseRef`, and behind it; with whether it has set the promise.
pub data Pc : Type 0 where
  called counting setting : Pc
  releasing : (has_set : Bool) → Pc
  over : (has_set : Bool) → Pc

module _ {E X Y : Type 0} where
  pub set_promise : Result E (X × Y) → Shared E X Y → Shared E X Y
  set_promise r s = record s { sets = s.sets ++ (r ∷ []) }

  -- `std::get<0>(cb_cnt->res_tup) = ...` and `std::get<1>(cb_cnt->res_tup) = ...`.
  pub store_x : X → Shared E X Y → Shared E X Y
  store_x x s = record s {
    res_tup = (x, s.res_tup.1);
    counter = record s.counter { fault = s.counter.fault || s.counter.is_deleted };
  }

  pub store_y : Y → Shared E X Y → Shared E X Y
  store_y y s = record s {
    res_tup = (s.res_tup.0, y);
    counter = record s.counter { fault = s.counter.fault || s.counter.is_deleted };
  }

  -- The first access of a callback.
  pub start : Given E X Y → Shared E X Y → Shared E X Y × Pc
  unfolding set_promise store_x store_y
  start (from_x (ok x)) s = (store_x x s, counting)
  start (from_x (err e)) s = (set_promise (err e) s, releasing true)
  start (from_y (ok y)) s = (store_y y s, counting)
  start (from_y (err e)) s = (set_promise (err e) s, releasing true)

  -- One access of a callback.
  pub act : Given E X Y → Pc → Shared E X Y → Shared E X Y × Pc
  unfolding start set_promise fetch_sub_value release_ref
  act g called s = start g s
  act g counting s =
      let (c, old) = fetch_sub_value s.counter in
      (record s { counter = c }, if old == 1 then setting else releasing false)
  act g setting s = (set_promise (ok s.res_tup) s, releasing true)
  act g (releasing b) s = (record s { counter = release_ref s.counter }, over b)
  act g (over b) s = (s, over b)

-- The callback of `fx`, that of `fy`, and what they share.
pub record Run (E X Y : Type 0) : Type 0 where
  pub shared : Shared E X Y
  pub cbx : Pc
  pub cby : Pc

module _ {E X Y : Type 0} where
  -- A turn: whether the callback of `fx` is to move.
  unfoldable pub step : Result E X → Result E Y → Bool → Run E X Y → Run E X Y
  unfolding act
  step rx ry true w =
      let (s, p) = act (from_x rx) w.cbx w.shared in record w { shared = s; cbx = p }
  step rx ry false w =
      let (s, p) = act (from_y ry) w.cby w.shared in record w { shared = s; cby = p }

  unfoldable pub both : Result E X → Result E Y → List Bool → Run E X Y → Run E X Y
  unfolding step
  both rx ry [] w = w
  both rx ry (t ∷ ts) w = both rx ry ts (step rx ry t w)

  -- The tuple starts with the default values of its types.
  pub init : X → Y → Run E X Y
  unfolding construct
  init default_x default_y = record {
    shared = record { counter = construct 2 2; res_tup = (default_x, default_y); sets = [] };
    cbx = called;
    cby = called;
  }
