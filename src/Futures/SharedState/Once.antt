-- ===== src/Futures/SharedState/Once.antt =====
-- After every schedule of one `SetResult` and one `SetCallback` of
-- tasks/futures/fun/exe/futures/state/shared_state.hpp, the callback gets the result once.
use concurrency_course_by_li.Base.{
  ℕ, zero, suc, ◌≤◌, ◌≡◌, refl, ap, ◌≢◌, ◌⊎◌, inl, inr, Bool, List, [], ◌∷◌, arith,
}
use concurrency_course_by_li.Threads.{run, run_inv}
use concurrency_course_by_li.Futures.SharedState.{
  SharedState, SetPc, UsePc, Race, set_crashed, use_callback, use_exchange, use_submit, use_done,
  use_crashed, use_get, use_asleep, use_got, notify_one, step, init,
}
use concurrency_course_by_li.Futures.SharedState.Protocol.{
  Inv, setter_stage, user_stage, set-Inv, use-Inv,
}
use concurrency_course_by_li.Futures.SharedState.Turns.{turns_of, left-run, done_setter, done_user}

module _ {E R C : Type 0} (e : E) (r : R) (c : C) where
  -- A consumer that subscribes does not wait.
  notify-Inv :
      (p q : SetPc R) (u : UsePc R C) (s : SharedState E R C)
      → Inv e r c (record { shared = s; setter = p; user = u })
      → Inv e r c (record { shared = s; setter = p; user = notify_one u q })
  notify-Inv p q (use_callback c') s h = h
  notify-Inv p q use_exchange s h = h
  notify-Inv p q use_submit s h = h
  notify-Inv p q use_done s h = h
  notify-Inv p q use_crashed s h = h
  notify-Inv p q use_get s h = h
  notify-Inv p q use_asleep s h = absurd (ground (arith, h.phase))
  notify-Inv p q (use_got r') s h = h

  step-Inv : (i : ℕ) (b : Bool) (w : Race E R C) → Inv e r c w → Inv e r c (step i b w)
  unfolding step
  step-Inv zero b w h = notify-Inv _ w.setter w.user _ (set-Inv e r c w.setter w.user w.shared h)
  step-Inv (suc i) b w h = use-Inv e r c b w.setter w.user w.shared h

  run-Inv : (ts : List (ℕ × Bool)) → Inv e r c (run step 2 ts (init e r (use_callback c)))
  run-Inv ts =
      run_inv step 2 (Inv e r c) (λ i b w lt h. step-Inv i b w h) ts _
        (record {
          executor_kept = refl;
          result_ok = refl;
          callback_ok = refl;
          phase = inl (refl, refl, refl, refl);
        })

module _ {E R C : Type 0} (e : E) (r : R) (c : C) (ts : List (ℕ × Bool)) where
  abbrev reached : Race E R C
  reached = run step 2 ts (init e r (use_callback c))

  -- After every schedule with at least 4 turns of the thread that calls `SetResult` and 3 turns of
  -- the thread that calls `SetCallback`: the callback was submitted to the executor once, with
  -- the result.
  pub callback_once :
      4 ≤ turns_of 0 ts → 3 ≤ turns_of 1 ts → reached.shared.submitted ≡ (e, r, c) ∷ []
  callback_once enough_p enough_u =
      let left = left-run ts (init e r (use_callback c)) in
      let h = run-Inv e r c ts in
      let low_p : setter_stage reached.setter ≤ 2 = ground (arith, h.phase) in
      let low_u : user_stage reached.user ≤ 2 = ground (arith, h.phase) in
      let p : setter_stage reached.setter ≡ 2 =
        done_setter reached.setter (omega (arith, left.0)) low_p in
      let u : user_stage reached.user ≡ 2 = done_user reached.user (omega (arith, left.1)) low_u in
      elim h.phase [
        | inl (a, b, d, g) ↦ absurd (omega (arith, a, p))
        | inr (inl (a, b, d, g)) ↦ absurd (omega (arith, b, u))
        | inr (inr (inl (a, b, d, g))) ↦ absurd (omega (arith, a, p))
        | inr (inr (inr (inl (a, b, d, g)))) ↦ absurd (omega (arith, a, p, u))
        | inr (inr (inr (inr (a, b, g)))) ↦ g
      ]

  -- After every schedule of `SetResult` and `SetCallback`: nothing was submitted, or the callback
  -- was, once, with the result; and neither side has met an optional without a value.
  pub callback_at_most_once :
      ((reached.shared.submitted ≡ []) ⊎ (reached.shared.submitted ≡ (e, r, c) ∷ []))
      × (reached.setter ≢ set_crashed)
      × (reached.user ≢ use_crashed)
  callback_at_most_once =
      let h = run-Inv e r c ts in
      (
        elim h.phase [
          | inl (a, b, d, g) ↦ inl g
          | inr (inl (a, b, d, g)) ↦ inl g
          | inr (inr (inl (a, b, d, g))) ↦ inl g
          | inr (inr (inr (inl (a, b, d, g)))) ↦ inl g
          | inr (inr (inr (inr (a, b, g)))) ↦ inr g
        ],
        λ x.
            let st : setter_stage reached.setter ≡ 3 = ap setter_stage x in
            ground (arith, h.phase, st),
        λ x. let st : user_stage reached.user ≡ 3 = ap user_stage x in ground (arith, h.phase, st),
      )
