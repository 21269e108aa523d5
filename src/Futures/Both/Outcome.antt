-- ===== src/Futures/Both/Outcome.antt =====
-- What the future of tasks/futures/fun/exe/futures/combine/par/all.hpp gets, and how long the shared
-- counter lives.
use concurrency_course_by_li.Base.{
  ℕ, ◌-◌, ◌≤◌, ◌≡◌, refl, subst, ◌⊎◌, Bool, true, false, List, [], ◌∷◌, arith,
}
use concurrency_course_by_li.Futures.Result.{Result, ok, err}
use concurrency_course_by_li.Futures.Both.{
  Shared, Given, from_x, from_y, Pc, called, counting, setting, releasing, over, start, act, Run,
  step, both, init,
}
use concurrency_course_by_li.Futures.Both.Invariant.{Inv, both-Inv, init-Inv}

-- The turns that a callback has left at most.
abbrev turns_left : Pc → ℕ
turns_left called = 4
turns_left counting = 3
turns_left setting = 2
turns_left (releasing _) = 1
turns_left (over _) = 0

over_of : (p : Pc) → turns_left p ≤ 0 → (b : Bool) × (p ≡ over b)
over_of (over b) h = (b, refl)
over_of called h = absurd (omega arith)
over_of counting h = absurd (omega arith)
over_of setting h = absurd (omega arith)
over_of (releasing b) h = absurd (omega arith)

module _ {E X Y : Type 0} where
  -- What `Both` sets the output to: the tuple, or each error.
  abbrev pub Settled : Result E X → Result E Y → List (Result E (X × Y)) → Type 0
  Settled (ok x) (ok y) l = l ≡ ok (x, y) ∷ []
  Settled (ok x) (err e) l = l ≡ err e ∷ []
  Settled (err d) (ok y) l = l ≡ err d ∷ []
  Settled (err d) (err e) l = (l ≡ err d ∷ err e ∷ []) ⊎ (l ≡ err e ∷ err d ∷ [])

  closer :
      (g : Given E X Y) (p : Pc) (s : Shared E X Y) → turns_left (act g p s).1 ≤ turns_left p - 1
  unfolding act start
  closer (from_x (ok _)) called s = omega arith
  closer (from_x (err _)) called s = omega arith
  closer (from_y (ok _)) called s = omega arith
  closer (from_y (err _)) called s = omega arith
  closer g counting s = ground arith
  closer g setting s = omega arith
  closer g (releasing b) s = omega arith
  closer g (over b) s = omega arith

  four :
      (g : Given E X Y) (p : Pc) (s : Shared E X Y)
      → let a = act g p s in
        let b = act g a.1 a.0 in let c = act g b.1 b.0 in turns_left (act g c.1 c.0).1 ≤ 0
  four g p s =
      let a : Shared E X Y × Pc = act g p s in
      let b : Shared E X Y × Pc = act g a.1 a.0 in
      let c : Shared E X Y × Pc = act g b.1 b.0 in
      let most : turns_left p ≤ 4 = ground arith in
      omega (arith, most, closer g p s, closer g a.1 a.0, closer g b.1 b.0, closer g c.1 c.0)

  Settled-over :
      (rx : Result E X) (ry : Result E Y) (b c : Bool) (s : Shared E X Y)
      → Inv rx ry s (over b) (over c)
      → Settled rx ry s.sets
  Settled-over (err d) ry false c s h = absurd (ground (arith, h.counts.fits_x))
  Settled-over rx (err e) b false s h = absurd (ground (arith, h.counts.fits_y))
  Settled-over (ok x) (ok y) true false s h = h.sets
  Settled-over (ok x) (ok y) false true s h = h.sets
  Settled-over (ok x) (ok y) true true s h = absurd (ground (arith, h.counts))
  Settled-over (ok x) (ok y) false false s h = absurd (ground (arith, h.counts))
  Settled-over (ok x) (err e) false true s h = h.sets
  Settled-over (ok x) (err e) true true s h = absurd (ground (arith, h.counts))
  Settled-over (err d) (ok y) true false s h = h.sets
  Settled-over (err d) (ok y) true true s h = absurd (ground (arith, h.counts))
  Settled-over (err d) (err e) true true s h = h.sets

  settle :
      (rx : Result E X) (ry : Result E Y) (p q : Pc) (s : Shared E X Y)
      → turns_left p ≤ 0
      → turns_left q ≤ 0
      → Inv rx ry s p q
      → Settled rx ry s.sets × (s.counter.is_deleted ≡ true) × (s.counter.fault ≡ false)
  settle rx ry p q s hp hq h =
      let (b, ep) = over_of p hp in
      let (c, eq) = over_of q hq in
      let h' : Inv rx ry s (over b) (over c) =
        subst (λ z. Inv rx ry s (over b) z) eq (subst (λ z. Inv rx ry s z q) ep h) in
      (Settled-over rx ry b c s h', ground (arith, h'.counts), h'.counts.no_fault)

  -- Whatever the two futures give and however the callbacks interleave, four further turns of each
  -- end both callbacks; then the promise was set once to the pair of the values, or, if a future
  -- failed, to each error and nothing else; the counter is deleted, and was not used behind that.
  pub both_settles :
      (rx : Result E X) (ry : Result E Y) (default_x : X) (default_y : Y) (ts : List Bool)
      → let w =
          both rx ry
            (true ∷ true ∷ true ∷ true ∷ false ∷ false ∷ false ∷ false ∷ [])
            (both rx ry ts (init default_x default_y)) in
        Settled rx ry w.shared.sets
        × (w.shared.counter.is_deleted ≡ true)
        × (w.shared.counter.fault ≡ false)
  unfolding both step
  both_settles rx ry default_x default_y ts =
      let w : Run E X Y = both rx ry ts (init default_x default_y) in
      let h =
        both-Inv rx ry (true ∷ true ∷ true ∷ true ∷ false ∷ false ∷ false ∷ false ∷ []) w
          (both-Inv rx ry ts (init default_x default_y) (init-Inv rx ry default_x default_y)) in
      settle rx ry _ _ _ (four (from_x rx) w.cbx w.shared) (four (from_y ry) w.cby _) h
