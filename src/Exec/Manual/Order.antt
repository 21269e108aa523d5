-- ===== src/Exec/Manual/Order.antt =====
-- The order in which tasks/tasks/executors/exe/executors/manual.cpp runs tasks.
use concurrency_course_by_li.Base.{
  ℕ, zero, suc, ◌+◌, ◌≤◌, ◌<◌, ◌≡◌, refl, sym, ap, ◌∙◌, ◌⊎◌, inl, inr, some, List, [], ◌∷◌, ◌++◌,
  append_assoc, append-nil, arith, ltb, ltb→lt, Bool-cases, length,
}
use concurrency_course_by_li.Exec.Manual.{Manual, run_front, rounds, drain_rounds, run_at_most}

module _ {T : Type 0} (submits : T → List T) where
  -- What a list of tasks submits, in order.
  unfoldable pub submitted_by : List T → List T
  submitted_by [] = []
  submitted_by (v ∷ vs) = submits v ++ submitted_by vs

  -- `ran` are the tasks that led from `s` to `s'`.
  pub record Ran (s s' : Manual T) (ran : List T) : Type 0 where
    pub log : s'.executed ≡ s.executed ++ ran
    pub queue : ran ++ s'.tasks ≡ s.tasks ++ submitted_by ran

  Ran-front :
      (v : T) (rest log : List T) (s' : Manual T) (ran : List T)
      → Ran (record { tasks = rest ++ submits v; executed = log ++ (v ∷ []) }) s' ran
      → Ran (record { tasks = v ∷ rest; executed = log }) s' (v ∷ ran)
  unfolding submitted_by
  Ran-front v rest log s' ran h = record {
    log = h.log ∙ append_assoc log (v ∷ []) ran;
    queue = ap (λ l. v ∷ l) (h.queue ∙ append_assoc rest (submits v) (submitted_by ran));
  }

  rounds-Ran :
      (left i : ℕ) (tasks log : List T)
      → let (s', count) = rounds submits left i (record { tasks = tasks; executed = log }) in
        (ran : List T) × Ran (record { tasks = tasks; executed = log }) s' ran
        × (count ≡ i + length ran)
        × (length ran ≤ left)
        × (length ran < left → s'.tasks ≡ [])
  unfolding rounds run_front submitted_by
  rounds-Ran zero i tasks log = (
    [],
    record { log = sym (append-nil log); queue = sym (append-nil tasks) },
    omega arith,
    omega arith,
    λ lt. absurd (omega arith),
  )
  rounds-Ran (suc left) i [] log = (
    [],
    record { log = sym (append-nil log); queue = refl },
    omega arith,
    omega arith,
    λ lt. refl,
  )
  rounds-Ran (suc left) i (v ∷ rest) log =
      let (ran, h, n, few, all) = rounds-Ran left (suc i) (rest ++ submits v) (log ++ (v ∷ [])) in
      (
        v ∷ ran,
        Ran-front v rest log _ ran h,
        omega (arith, n),
        omega (arith, few),
        λ lt. all (omega arith),
      )

  -- For every limit and state: `RunAtMost` runs as many tasks as it returns, at most the limit, and
  -- leaves the queue empty unless it returns the limit; it takes the tasks in the order of submission,
  -- those that the tasks submit while they run behind those that were there.
  pub manual_run_order :
      (limit : ℕ) (s : Manual T)
      → let (s', count) = run_at_most submits limit s in
        (ran : List T) × (s'.executed ≡ s.executed ++ ran)
        × (ran ++ s'.tasks ≡ s.tasks ++ submitted_by ran)
        × (count ≡ length ran)
        × (count ≤ limit)
        × ((count ≡ limit) ⊎ (s'.tasks ≡ []))
  unfolding run_at_most
  manual_run_order limit s =
      let (ran, h, n, few, all) = rounds-Ran limit 0 s.tasks s.executed in
      (
        ran,
        h.log,
        h.queue,
        omega (arith, n),
        omega (arith, n, few),
        elim (Bool-cases (ltb (length ran) limit)) [
          | inl less ↦ inr (all (ltb→lt _ _ less))
          | inr full ↦ inl (ground (arith, n, few))
        ],
      )

  module _ (weight : T → ℕ) where
    unfoldable pub total : List T → ℕ
    total [] = 0
    total (v ∷ vs) = weight v + total vs

    total-append : (xs ys : List T) → total (xs ++ ys) ≡ total xs + total ys
    unfolding total
    total-append [] ys = omega arith
    total-append (x ∷ xs) ys = omega (arith, total-append xs ys)

    module _ (less : (v : T) → total (submits v) < weight v) where
      drain-Ran :
          (fuel i : ℕ) (tasks log : List T)
          → total tasks ≤ fuel
          → let s : Manual T = record { tasks = tasks; executed = log } in
            (s' : Manual T) × (ran : List T) × Ran s s' ran
            × (s'.tasks ≡ [])
            × (drain_rounds submits fuel i s ≡ some (s', i + length ran))
      unfolding drain_rounds run_front total submitted_by
      drain-Ran zero i [] log enough = (
        record { tasks = []; executed = log },
        [],
        record { log = sym (append-nil log); queue = refl },
        refl,
        let n : i + 0 ≡ i = omega arith in rw n refl,
      )
      drain-Ran (suc fuel) i [] log enough = (
        record { tasks = []; executed = log },
        [],
        record { log = sym (append-nil log); queue = refl },
        refl,
        let n : i + 0 ≡ i = omega arith in rw n refl,
      )
      drain-Ran zero i (v ∷ rest) log enough = absurd (omega (arith, less v))
      drain-Ran (suc fuel) i (v ∷ rest) log enough =
          let (s', ran, h, done, e) =
            drain-Ran fuel (suc i) (rest ++ submits v) (log ++ (v ∷ []))
              (omega (arith, less v, total-append rest (submits v))) in
          (
            s',
            v ∷ ran,
            Ran-front v rest log s' ran h,
            done,
            let n : i + suc (length ran) ≡ suc i + length ran = omega arith in rw n e,
          )

      -- If the weight of a task is more than that of the tasks it submits together, which bounds how
      -- many tasks can follow from it: `Drain` returns within as many rounds as the queue weighs, with an
      -- empty queue and the number of the tasks it ran, which it took in the order of submission.
      pub manual_drain_returns :
          (s : Manual T) (fuel : ℕ)
          → total s.tasks ≤ fuel
          → (s' : Manual T) × (ran : List T) × (s'.executed ≡ s.executed ++ ran)
            × (ran ≡ s.tasks ++ submitted_by ran)
            × (s'.tasks ≡ [])
            × (drain_rounds submits fuel 0 s ≡ some (s', length ran))
      manual_drain_returns s fuel enough =
          let (s', ran, h, done, e) = drain-Ran fuel 0 s.tasks s.executed enough in
          let n : 0 + length ran ≡ length ran = omega arith in
          (
            s',
            ran,
            h.log,
            sym (append-nil ran) ∙ ap (λ l. ran ++ l) (sym done) ∙ h.queue,
            done,
            e ∙ ap (λ k. some (s', k)) n,
          )
