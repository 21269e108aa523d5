-- ===== src/Memory/Refer/Lifetime.antt =====
-- What every program over tasks/tasks/executors/exe/support/refer can rely on.
use concurrency_course_by_li.Base.{
  ℕ, suc, ◌+◌, ◌^◌, ◌≤◌, ◌<◌, ◌≡◌, refl, sym, ◌∙◌, subst, ◌⊎◌, inl, inr, true, false, Option, none,
  some, List, arith, Bool-cases, length,
}
use concurrency_course_by_li.Threads.{tally, run_inv_timed, run}
use concurrency_course_by_li.Memory.Refer.{
  Store, Call, call_null, call_new, call_destroy, call_reset, call_release, call_from, call_adopt,
  call_copy, call_move, call_assign, is_null, is_legal, execute, step, create, reset, destroy,
  get_ref_count, construct_from, copy_construct,
}
use concurrency_course_by_li.Memory.Refer.Counts.{
  points, references, Lives, Inv, none_under_way, init-Inv,
}
use concurrency_course_by_li.Memory.Refer.Moves.{
  later-Inv, alive_lem, null-Inv, shared-Inv, destroy-Inv, move-Inv, assign-Inv, release-raw-Inv,
  adopt-Inv, new-Inv,
}

abbrev pub limit : ℕ
limit = 2 ^ 62

is_null-eq : (p : Option ℕ) → is_null p ≡ true → p ≡ none
is_null-eq none e = refl
is_null-eq (some o) e = absurd (ground (arith, e))

module _ (n k : ℕ) (early : k < limit) (i : ℕ) (lt : i < n) (s : Store)
    (h : Inv n k none_under_way s) where
  execute-Inv : (c : Call) → is_legal n i c s ≡ true → Inv n (suc k) none_under_way (execute i c s)
  unfolding execute is_legal construct_from copy_construct reset destroy
  execute-Inv call_null e = null-Inv n k (omega arith) none_under_way i lt s h (is_null-eq _ e)
  execute-Inv call_new e = new-Inv n k (omega arith) none_under_way i lt s h (is_null-eq _ e)
  execute-Inv call_destroy e = destroy-Inv n k (omega arith) none_under_way i lt s h
  execute-Inv call_reset e = destroy-Inv n k (omega arith) none_under_way i lt s h
  execute-Inv call_release e = release-raw-Inv n k (omega arith) none_under_way i lt s h
  execute-Inv (call_from o) e =
      shared-Inv n k (omega arith) none_under_way i lt s h (some o)
        (is_null-eq _ (ground (arith, e))) (λ o' same. ground (arith, e, same))
  execute-Inv (call_adopt o) e =
      adopt-Inv n k (omega arith) none_under_way i lt s h o (is_null-eq _ (ground (arith, e)))
        (ground (arith, e))
  execute-Inv (call_copy j) e =
      shared-Inv n k (omega arith) none_under_way i lt s h (s.refs j)
        (is_null-eq _ (ground (arith, e)))
        (λ o same. alive_lem n k none_under_way j o s (ground (arith, e)) same h)
  execute-Inv (call_move j) e =
      move-Inv n k (omega arith) none_under_way i lt s h j (ground (arith, e))
        (is_null-eq _ (ground (arith, e))) (ground (arith, e))
  execute-Inv (call_assign j) e =
      assign-Inv n k (omega arith) none_under_way i lt s h j (ground (arith, e))

  step-Inv : (c : Call) → Inv n (suc k) none_under_way (step n i c s)
  unfolding step
  step-Inv c = elim (Bool-cases (is_legal n i c s)) [
    | inl legal ↦ rw legal (execute-Inv c legal)
    | inr other ↦ rw other (later-Inv n k none_under_way s h)
  ]

module _ (n : ℕ) (ts : List (ℕ × Call)) (short : length ts ≤ limit) where
  abbrev reached : Store
  reached = run (step n) n ts create

  abbrev owners : ℕ → ℕ
  owners o = tally (points o) n reached.refs + reached.raw o

  -- After every sequence of at most 2^62 legal operations on `n` `Ref` variables: no object was used
  -- behind its deletion, the count of each object is the number of its references, and an object
  -- exists exactly as long as it has references.
  pub refer_lifetime :
      (o : ℕ)
      → (reached.fault ≡ false)
        × (get_ref_count o reached ≡ owners o)
        × (((reached.alive o ≡ true) × (0 < owners o))
            ⊎ ((reached.alive o ≡ false) × (owners o ≡ 0)))
  unfolding get_ref_count
  refer_lifetime o =
      let h : Inv n (0 + length ts) none_under_way reached =
        run_inv_timed (step n) n (λ k s. Inv n k none_under_way s) limit
          (λ k i c s early lt inv. step-Inv n k early i lt s inv c)
          (λ k s inv. later-Inv n k none_under_way s inv) ts 0 create (omega arith) (init-Inv n) in
      let same : owners o ≡ references n none_under_way reached o = omega arith in
      (
        h.no_fault,
        h.counted o ∙ sym same,
        subst (λ m. Lives (reached.alive o) m) (sym same) (h.life o),
      )
