-- ===== src/Futures/SharedState/Waiting.antt =====
-- The callers of `SyncGet` in tasks/futures/fun/exe/futures/state/shared_state.hpp.
use concurrency_course_by_li.Base.{
  ℕ, zero, suc, ◌≤◌, ◌≡◌, refl, ap, subst, inl, inr, Bool, Option, none, some, List, arith,
  Bool-cases,
}
use concurrency_course_by_li.Futures.SharedState.Turns.{turns_of, set_left, left-run}
use concurrency_course_by_li.Futures.SharedState.{
  run, run_inv, SharedState, set_step, use_step, notify_one, Race, step, init, set_exchange,
  set_submit, set_done, set_crashed, use_callback, use_exchange, use_submit, use_done, use_crashed,
  use_get, use_asleep, use_got, Race, set_step, use_step, SetPc, UsePc, set_start, set_notify,
  set_exchange, set_submit, set_done, set_crashed, use_get, use_asleep, use_got, get_result,
}

module _ {R : Type 0} (r : R) where
  -- What the setter still has to do, with the result and the state.
  abbrev Setting : SetPc R → Option R → ℕ → Type 0
  Setting (set_start r') o st = (r' ≡ r) × (o ≡ none) × (st ≡ 0)
  Setting set_notify o st = (o ≡ some r) × (st ≡ 0)
  Setting set_exchange o st = (o ≡ some r) × (st ≡ 0)
  Setting set_done o st = o ≡ some r
  Setting set_submit o st = ⊥
  Setting set_crashed o st = ⊥

  abbrev Unnotified : SetPc R → Type 0
  Unnotified (set_start r') = Unit
  Unnotified set_notify = Unit
  Unnotified _ = ⊥

  -- A sleeper is still to be notified, and the one that returns has the result.
  abbrev Getting : {C : Type 0} → SetPc R → UsePc R C → Type 0
  Getting p use_asleep = Unnotified p
  Getting p (use_got r') = r' ≡ r
  Getting p use_get = Unit
  Getting p _ = ⊥

  get-Getting :
      (C : Type 0) (p : SetPc R) (o : Option R) (st : ℕ)
      → Setting p o st
      → Getting {C = C} p (get_result o)
  get-Getting C (set_start r') none st h = tt
  get-Getting C set_notify none st h = tt
  get-Getting C set_exchange none st (h, e) = absurd (cc h)
  get-Getting C set_done none st h = absurd (cc h)
  get-Getting C set_submit none st h = absurd h
  get-Getting C set_crashed none st h = absurd h
  get-Getting C (set_start r') (some x) st (h, e, z) = absurd (cc e)
  get-Getting C set_notify (some x) st (h, e) = cc h
  get-Getting C set_exchange (some x) st (h, e) = cc h
  get-Getting C set_done (some x) st h = cc h
  get-Getting C set_submit (some x) st h = absurd h
  get-Getting C set_crashed (some x) st h = absurd h

  -- Without a sleeper, the setter's step does not matter to the consumer.
  set-Getting :
      {E C : Type 0} (p : SetPc R) (u : UsePc R C) (s : SharedState E R C)
      → Setting p s.result_opt s.state
      → Getting p u
      → Getting (set_step p s).1 (notify_one u p)
  unfolding set_step
  set-Getting p use_get s h g = tt
  set-Getting p (use_got r') s h g = g
  set-Getting (set_start r') use_asleep s h g = tt
  set-Getting set_notify use_asleep s h g = tt
  set-Getting set_exchange use_asleep s h g = absurd g
  set-Getting set_submit use_asleep s h g = absurd g
  set-Getting set_done use_asleep s h g = absurd g
  set-Getting set_crashed use_asleep s h g = absurd g
  set-Getting p (use_callback c) s h g = absurd g
  set-Getting p use_exchange s h g = absurd g
  set-Getting p use_submit s h g = absurd g
  set-Getting p use_done s h g = absurd g
  set-Getting p use_crashed s h g = absurd g

  set-Setting :
      {E C : Type 0} (p : SetPc R) (s : SharedState E R C)
      → Setting p s.result_opt s.state
      → let (s', p') = set_step p s in Setting p' s'.result_opt s'.state
  unfolding set_step
  set-Setting (set_start r') s (h, e, z) = (ap some h, z)
  set-Setting set_notify s h = h
  set-Setting set_exchange s (h, z) = rw z h
  set-Setting set_submit s h = absurd h
  set-Setting set_done s h = h
  set-Setting set_crashed s h = absurd h

  result-eq : (p : SetPc R) (o : Option R) (st : ℕ) → set_left p ≤ 2 → Setting p o st → o ≡ some r
  result-eq (set_start r') o st l h = absurd (omega arith)
  result-eq set_notify o st l h = absurd (omega arith)
  result-eq set_exchange o st l (h, z) = h
  result-eq set_submit o st l h = absurd h
  result-eq set_done o st l h = h
  result-eq set_crashed o st l h = absurd h

  not_asleep : (p : SetPc R) → set_left p ≤ 2 → Unnotified p → ⊥
  not_asleep (set_start r') l g = omega arith
  not_asleep set_notify l g = omega arith
  not_asleep set_exchange l g = g
  not_asleep set_submit l g = g
  not_asleep set_done l g = g
  not_asleep set_crashed l g = g

module _ {E R C : Type 0} (r : R) where
  abbrev Inv : Race E R C → Type 0
  Inv w = Setting r w.setter w.shared.result_opt w.shared.state × Getting r w.setter w.user

  use-Inv :
      (b : Bool) (p : SetPc R) (u : UsePc R C) (s : SharedState E R C)
      → Setting r p s.result_opt s.state
      → Getting r p u
      → let (s', u') = use_step b u s in Setting r p s'.result_opt s'.state × Getting r p u'
  unfolding use_step
  use-Inv b p use_get s h g = (h, get-Getting r C p s.result_opt s.state h)
  use-Inv b p use_asleep s h g = elim (Bool-cases b) [
    | inl wakes ↦ rw wakes (h, tt)
    | inr sleeps ↦ rw sleeps (h, g)
  ]
  use-Inv b p (use_got r') s h g = (h, g)
  use-Inv b p (use_callback c) s h g = absurd g
  use-Inv b p use_exchange s h g = absurd g
  use-Inv b p use_submit s h g = absurd g
  use-Inv b p use_done s h g = absurd g
  use-Inv b p use_crashed s h g = absurd g

  step-Inv : (i : ℕ) (b : Bool) (w : Race E R C) → Inv w → Inv (step i b w)
  unfolding step
  step-Inv zero b w (h, g) =
      (set-Setting r w.setter w.shared h, set-Getting r w.setter w.user w.shared h g)
  step-Inv (suc i) b w (h, g) = use-Inv b w.setter w.user w.shared h g

  -- Once the setter has notified, the next turn of the consumer returns the result.
  next-got :
      (p : SetPc R) (u : UsePc R C) (b : Bool) (s : SharedState E R C)
      → set_left p ≤ 2
      → Setting r p s.result_opt s.state
      → Getting r p u
      → (use_step b u s).1 ≡ use_got r
  unfolding use_step
  next-got p use_get b s l h g = rw (result-eq r p s.result_opt s.state l h) refl
  next-got p (use_got r') b s l h g = ap use_got g
  next-got p use_asleep b s l h g = absurd (not_asleep r p l g)
  next-got p (use_callback c) b s l h g = absurd g
  next-got p use_exchange b s l h g = absurd g
  next-got p use_submit b s l h g = absurd g
  next-got p use_done b s l h g = absurd g
  next-got p use_crashed b s l h g = absurd g

module _ {E R : Type 0} (C : Type 0) (e : E) (r : R) (ts : List (ℕ × Bool)) where
  abbrev reached : Race E R C
  reached = run step 2 ts (init e r use_get)

  reached-Inv : Inv r reached
  reached-Inv =
      run_inv step 2 (Inv r) (λ i b w lt h. step-Inv r i b w h) ts (init e r use_get)
        ((refl, refl, refl), tt)

  -- After every schedule of one `SetResult` and one `SyncGet`: what `SyncGet` has returned is the
  -- result that was set.
  pub sync_get_result : (r' : R) → reached.user ≡ use_got r' → r' ≡ r
  sync_get_result r' x = subst (λ u. Getting r reached.setter u) x reached-Inv.1

  -- After every schedule of one `SetResult` and one `SyncGet` with at least 2 turns of the first:
  -- the next turn of the thread that calls `SyncGet` returns the result.
  pub sync_get_returns : (b : Bool) → 2 ≤ turns_of 0 ts → (step 1 b reached).user ≡ use_got r
  unfolding step
  sync_get_returns b enough =
      let left = left-run ts (init {C = C} e r use_get) in
      next-got r reached.setter reached.user b reached.shared (omega (arith, left.0)) reached-Inv.0
        reached-Inv.1
