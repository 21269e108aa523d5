-- ===== src/Futures/SharedState/Protocol.antt =====
-- The exchanges of tasks/futures/fun/exe/futures/state/shared_state.hpp hand the result to the
-- callback once.
use concurrency_course_by_li.Base.{
  ℕ, ◌+◌, ◌≤◌, ◌≡◌, refl, ap, ◌⊎◌, inl, inr, Bool, Option, some, List, [], ◌∷◌, arith,
}
use concurrency_course_by_li.Futures.SharedState.{
  SharedState, SetPc, UsePc, Race, set_start, set_notify, set_exchange, set_submit, set_done,
  set_crashed, use_callback, use_exchange, use_submit, use_done, use_crashed, use_get, use_asleep,
  use_got, set_step, use_step, submit_callback, submit_with,
}

module _ {R : Type 0} where
  -- How far each side is: before its exchange, before its submission, done.
  abbrev pub setter_stage : SetPc R → ℕ
  setter_stage set_submit = 1
  setter_stage set_done = 2
  setter_stage set_crashed = 3
  setter_stage _ = 0

module _ {R C : Type 0} where
  abbrev pub user_stage : UsePc R C → ℕ
  user_stage (use_callback c) = 0
  user_stage use_exchange = 0
  user_stage use_submit = 1
  user_stage use_done = 2
  user_stage _ = 3

module _ {E R C : Type 0} where
  module _ (e : E) (r : R) (c : C) where
    abbrev pub ResultOk : SetPc R → Option R → Type 0
    ResultOk (set_start r') o = r' ≡ r
    ResultOk _ o = o ≡ some r

    abbrev pub CallbackOk : UsePc R C → Option C → Type 0
    CallbackOk (use_callback c') o = c' ≡ c
    CallbackOk _ o = o ≡ some c

    -- Neither side has exchanged, one has, the second one is about to submit, or has submitted.
    abbrev pub Phase : ℕ → ℕ → ℕ → List (E × R × C) → Type 0
    Phase p u st log =
        ((p ≡ 0) × (u ≡ 0) × (st ≡ 0) × (log ≡ []))
        ⊎ ((p ≡ 2) × (u ≡ 0) × (st ≡ 2) × (log ≡ []))
        ⊎ ((p ≡ 0) × (u ≡ 2) × (st ≡ 1) × (log ≡ []))
        ⊎ ((p + u ≡ 3) × (p ≤ 2) × (u ≤ 2) × (log ≡ []))
        ⊎ ((p ≡ 2) × (u ≡ 2) × (log ≡ (e, r, c) ∷ []))

    pub record Inv (w : Race E R C) : Type 0 where
      pub executor_kept : w.shared.executor ≡ e
      pub result_ok : ResultOk w.setter w.shared.result_opt
      pub callback_ok : CallbackOk w.user w.shared.callback_opt
      pub phase :
          Phase (setter_stage w.setter) (user_stage w.user) w.shared.state w.shared.submitted

    -- What a submission does, once both optionals are set.
    submit-eq :
        (s : SharedState E R C)
        → s.executor ≡ e
        → s.result_opt ≡ some r
        → s.callback_opt ≡ some c
        → s.submitted ≡ []
        → submit_callback s ≡ some (record s { submitted = (e, r, c) ∷ [] })
    unfolding submit_callback submit_with
    submit-eq s x y z g = rw (y, z, x, g) refl

    result_set_lem : (p : SetPc R) (o : Option R) → ResultOk p o → setter_stage p ≡ 2 → o ≡ some r
    result_set_lem (set_start r') o h st = absurd (omega arith)
    result_set_lem set_notify o h st = h
    result_set_lem set_exchange o h st = h
    result_set_lem set_submit o h st = h
    result_set_lem set_done o h st = h
    result_set_lem set_crashed o h st = h

    callback_set_lem :
        (u : UsePc R C) (o : Option C) → CallbackOk u o → user_stage u ≡ 2 → o ≡ some c
    callback_set_lem (use_callback c') o h st = absurd (omega arith)
    callback_set_lem use_exchange o h st = h
    callback_set_lem use_submit o h st = h
    callback_set_lem use_done o h st = h
    callback_set_lem use_crashed o h st = h
    callback_set_lem use_get o h st = h
    callback_set_lem use_asleep o h st = h
    callback_set_lem (use_got r') o h st = h

    pub set-Inv :
        (p : SetPc R) (u : UsePc R C) (s : SharedState E R C)
        → Inv (record { shared = s; setter = p; user = u })
        → let (s', p') = set_step p s in Inv (record { shared = s'; setter = p'; user = u })
    unfolding set_step
    set-Inv (set_start r') u s h = record {
      executor_kept = h.executor_kept;
      result_ok = ap some h.result_ok;
      callback_ok = h.callback_ok;
      phase = h.phase;
    }
    set-Inv set_notify u s h = record {
      executor_kept = h.executor_kept;
      result_ok = h.result_ok;
      callback_ok = h.callback_ok;
      phase = h.phase;
    }
    set-Inv set_exchange u s h = elim h.phase [
      | inl (a, b, d, g) ↦ rw d (record {
        executor_kept = h.executor_kept;
        result_ok = h.result_ok;
        callback_ok = h.callback_ok;
        phase = inr (inl (refl, b, refl, g));
      })
      | inr (inl (a, b, d, g)) ↦ absurd (omega arith)
      | inr (inr (inl (a, b, d, g))) ↦ rw d (record {
        executor_kept = h.executor_kept;
        result_ok = h.result_ok;
        callback_ok = h.callback_ok;
        phase = inr (inr (inr (inl (omega arith, omega arith, omega arith, g))));
      })
      | inr (inr (inr (inl (a, b, d, g)))) ↦ absurd (omega arith)
      | inr (inr (inr (inr (a, b, g)))) ↦ absurd (omega arith)
    ]
    set-Inv set_submit u s h = elim h.phase [
      | inl (a, b, d, g) ↦ absurd (omega arith)
      | inr (inl (a, b, d, g)) ↦ absurd (omega arith)
      | inr (inr (inl (a, b, d, g))) ↦ absurd (omega arith)
      | inr (inr (inr (inl (a, b, d, g)))) ↦
          rw
            (
              set_step,
              submit-eq s h.executor_kept h.result_ok
                  (callback_set_lem u s.callback_opt h.callback_ok (omega arith)) g,
            )
            (record {
              executor_kept = h.executor_kept;
              result_ok = h.result_ok;
              callback_ok = h.callback_ok;
              phase = inr (inr (inr (inr (refl, omega arith, refl))));
            })
      | inr (inr (inr (inr (a, b, g)))) ↦ absurd (omega arith)
    ]
    set-Inv set_done u s h = h
    set-Inv set_crashed u s h = h

    pub use-Inv :
        (spurious : Bool) (p : SetPc R) (u : UsePc R C) (s : SharedState E R C)
        → Inv (record { shared = s; setter = p; user = u })
        → let (s', u') = use_step spurious u s in
          Inv (record { shared = s'; setter = p; user = u' })
    unfolding use_step
    use-Inv b p (use_callback c') s h = record {
      executor_kept = h.executor_kept;
      result_ok = h.result_ok;
      callback_ok = ap some h.callback_ok;
      phase = h.phase;
    }
    use-Inv b p use_exchange s h = elim h.phase [
      | inl (a, b, d, g) ↦ rw d (record {
        executor_kept = h.executor_kept;
        result_ok = h.result_ok;
        callback_ok = h.callback_ok;
        phase = inr (inr (inl (a, refl, refl, g)));
      })
      | inr (inl (a, b, d, g)) ↦ rw d (record {
        executor_kept = h.executor_kept;
        result_ok = h.result_ok;
        callback_ok = h.callback_ok;
        phase = inr (inr (inr (inl (omega arith, omega arith, omega arith, g))));
      })
      | inr (inr (inl (a, b, d, g))) ↦ absurd (omega arith)
      | inr (inr (inr (inl (a, b, d, g)))) ↦ absurd (omega arith)
      | inr (inr (inr (inr (a, b, g)))) ↦ absurd (omega arith)
    ]
    use-Inv b p use_submit s h = elim h.phase [
      | inl (a, b, d, g) ↦ absurd (omega arith)
      | inr (inl (a, b, d, g)) ↦ absurd (omega arith)
      | inr (inr (inl (a, b, d, g))) ↦ absurd (omega arith)
      | inr (inr (inr (inl (a, b, d, g)))) ↦
          rw
            (
              use_step,
              submit-eq s h.executor_kept (result_set_lem p s.result_opt h.result_ok (omega arith))
                  h.callback_ok g,
            )
            (record {
              executor_kept = h.executor_kept;
              result_ok = h.result_ok;
              callback_ok = h.callback_ok;
              phase = inr (inr (inr (inr (omega arith, refl, refl))));
            })
      | inr (inr (inr (inr (a, b, g)))) ↦ absurd (omega arith)
    ]
    use-Inv b p use_done s h = h
    use-Inv b p use_crashed s h = h
    use-Inv b p use_get s h = absurd (ground (arith, h.phase))
    use-Inv b p use_asleep s h = absurd (ground (arith, h.phase))
    use-Inv b p (use_got r') s h = h
