-- ===== src/Futures/First/Outcome.antt =====
-- What the future of tasks/futures/fun/exe/futures/combine/par/first.hpp gets, and how long the
-- shared counter lives.
use concurrency_course_by_li.Base.{
  ℕ, ◌-◌, ◌≤◌, ◌≡◌, refl, subst, ◌⊎◌, inl, inr, Bool, true, false, List, [], ◌∷◌, arith,
}
use concurrency_course_by_li.Futures.Result.{Result, ok, err}
use concurrency_course_by_li.Futures.First.{
  Shared, Pc, called, setting, releasing, over, act, Run, step, first, init,
}
use concurrency_course_by_li.Futures.First.Invariant.{Inv, first-Inv, init-Inv}

-- The turns that a callback has left at most.
abbrev turns_left : Pc → ℕ
turns_left called = 3
turns_left setting = 2
turns_left (releasing _) = 1
turns_left (over _) = 0

over_of : (p : Pc) → turns_left p ≤ 0 → (b : Bool) × (p ≡ over b)
over_of (over b) h = (b, refl)
over_of called h = absurd (omega arith)
over_of setting h = absurd (omega arith)
over_of (releasing b) h = absurd (omega arith)

module _ {E T : Type 0} where
  -- What `First` sets the output to: each success; else the error that was counted last.
  abbrev pub Settled : Result E T → Result E T → List (Result E T) → Type 0
  Settled (ok v) (ok u) l = (l ≡ ok v ∷ ok u ∷ []) ⊎ (l ≡ ok u ∷ ok v ∷ [])
  Settled (ok v) (err e) l = l ≡ ok v ∷ []
  Settled (err d) (ok u) l = l ≡ ok u ∷ []
  Settled (err d) (err e) l = (l ≡ err d ∷ []) ⊎ (l ≡ err e ∷ [])

  closer : (r : Result E T) (p : Pc) (s : Shared E T) → turns_left (act r p s).1 ≤ turns_left p - 1
  unfolding act
  closer (ok v) called s = omega arith
  closer (err e) called s = ground arith
  closer r setting s = omega arith
  closer r (releasing b) s = omega arith
  closer r (over b) s = omega arith

  three :
      (r : Result E T) (p : Pc) (s : Shared E T)
      → let a = act r p s in let b = act r a.1 a.0 in turns_left (act r b.1 b.0).1 ≤ 0
  three r p s =
      let a : Shared E T × Pc = act r p s in
      let b : Shared E T × Pc = act r a.1 a.0 in
      let most : turns_left p ≤ 3 = ground arith in
      omega (arith, most, closer r p s, closer r a.1 a.0, closer r b.1 b.0)

  Settled-over :
      (r1 r2 : Result E T) (b c : Bool) (s : Shared E T)
      → Inv r1 r2 (record { shared = s; cb1 = over b; cb2 = over c })
      → Settled r1 r2 s.sets
  Settled-over (ok v) (ok u) true true s h = h.sets
  Settled-over (ok v) r2 false c s h = absurd (ground (arith, h.fits1))
  Settled-over r1 (ok u) b false s h = absurd (ground (arith, h.fits2))
  Settled-over (ok v) (err e) true false s h = h.sets
  Settled-over (ok v) (err e) true true s h = absurd (ground (arith, h))
  Settled-over (err d) (ok u) false true s h = h.sets
  Settled-over (err d) (ok u) true true s h = absurd (ground (arith, h))
  Settled-over (err d) (err e) true false s h = inl h.sets
  Settled-over (err d) (err e) false true s h = inr h.sets
  Settled-over (err d) (err e) true true s h = absurd (ground (arith, h))
  Settled-over (err d) (err e) false false s h = absurd (ground (arith, h))

  settle :
      (r1 r2 : Result E T) (p q : Pc) (s : Shared E T)
      → turns_left p ≤ 0
      → turns_left q ≤ 0
      → Inv r1 r2 (record { shared = s; cb1 = p; cb2 = q })
      → Settled r1 r2 s.sets × (s.counter.is_deleted ≡ true) × (s.counter.fault ≡ false)
  settle r1 r2 p q s hp hq h =
      let (b, ep) = over_of p hp in
      let (c, eq) = over_of q hq in
      let h' : Inv r1 r2 (record { shared = s; cb1 = over b; cb2 = over c }) =
        subst (λ x. Inv r1 r2 (record { shared = s; cb1 = over b; cb2 = x })) eq
          (subst (λ x. Inv r1 r2 (record { shared = s; cb1 = x; cb2 = q })) ep h) in
      (Settled-over r1 r2 b c s h', ground (arith, h'.gone, h'.refs), h'.no_fault)

  -- Whatever the two futures give and however the callbacks interleave, three further turns of each
  -- end both callbacks; then each success was set, or, if both fail, one of the errors once, the
  -- counter is deleted, and it was not used behind its deletion.
  pub first_settles :
      (r1 r2 : Result E T) (ts : List Bool)
      → let w =
          first r1 r2 (true ∷ true ∷ true ∷ false ∷ false ∷ false ∷ []) (first r1 r2 ts init) in
        Settled r1 r2 w.shared.sets
        × (w.shared.counter.is_deleted ≡ true)
        × (w.shared.counter.fault ≡ false)
  unfolding first step
  first_settles r1 r2 ts =
      let w : Run E T = first r1 r2 ts init in
      let h =
        first-Inv r1 r2 (true ∷ true ∷ true ∷ false ∷ false ∷ false ∷ []) w
          (first-Inv r1 r2 ts init (init-Inv r1 r2)) in
      settle r1 r2 _ _ _ (three r1 w.cb1 w.shared) (three r2 w.cb2 _) h
