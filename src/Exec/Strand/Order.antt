-- ===== src/Exec/Strand/Order.antt =====
-- The strand (tasks/tasks/executors/exe/executors/strand.cpp) runs its tasks in the order of the
-- queue.
use concurrency_course_by_li.Base.{
  ℕ, zero, suc, ◌+◌, ◌^◌, ◌≤◌, ◌<◌, ◌≡◌, refl, sym, ap, ◌∙◌, ◌≢◌, inl, inr, List, [], ◌∷◌, ◌++◌,
  append_assoc, append-nil, arith, ◌==◌, ==_iff, Bool-cases, length,
}
use concurrency_course_by_li.Threads.{
  update, tally, tally-update, le-tally, tally-eq-zero, run_inv_timed, World, run,
}
use concurrency_course_by_li.Exec.Strand.{
  Strand, Pc, outside, linked, counted, run_take, run_taken, run_check, run_tasks, run_sub, Call,
  call_submit, call_run, act, step, init, take_node, run_task, finish, start_run, schedule,
  put_link,
}
use concurrency_course_by_li.Exec.Strand.Invariant.{drives, count, Inv}
use concurrency_course_by_li.Exec.Strand.Moves.{step-Inv, later, init-Inv, driver}

module _ {T : Type 0} where
  -- The tasks that a thread has taken and not run.
  abbrev pub local : Pc T → List T
  local (run_take batch) = batch
  local (run_taken batch v) = batch ++ (v ∷ [])
  local (run_check batch) = batch
  local (run_tasks batch _) = batch
  local _ = []

  -- The local tasks of all threads.
  pub gather : ℕ → (ℕ → Pc T) → List T
  gather zero pc = []
  gather (suc n) pc = gather n pc ++ local (pc n)

  gather-update_out :
      (n : ℕ) (pc : ℕ → Pc T) (i : ℕ) (p : Pc T) → n ≤ i → gather n (update pc i p) ≡ gather n pc
  unfolding gather
  gather-update_out zero pc i p h = refl
  gather-update_out (suc n) pc i p h = ground (arith, gather-update_out n pc i p)

  -- A move that keeps the local tasks of its thread keeps them all.
  gather-same :
      (n : ℕ) (pc : ℕ → Pc T) (i : ℕ) (p : Pc T)
      → local p ≡ local (pc i)
      → gather n (update pc i p) ≡ gather n pc
  unfolding gather
  gather-same zero pc i p h = refl
  gather-same (suc n) pc i p h = elim (Bool-cases (i == n)) [
    | inl last ↦ ground (arith, gather-update_out n pc i p)
    | inr below ↦ ground (arith, gather-same n pc i p h)
  ]

  local-nil : (p : Pc T) → drives p ≡ 0 → local p ≡ []
  local-nil p h = ground arith

  pub gather-none : (n : ℕ) (pc : ℕ → Pc T) → tally drives n pc ≡ 0 → gather n pc ≡ []
  unfolding gather tally
  gather-none zero pc h = refl
  gather-none (suc n) pc h = rw (gather-none n pc (omega arith), local-nil (pc n) (omega arith))

  gather-alone :
      (n : ℕ) (pc : ℕ → Pc T) (i : ℕ)
      → i < n
      → tally drives n pc ≤ 1
      → drives (pc i) ≡ 1
      → gather n pc ≡ local (pc i)
  unfolding gather tally
  gather-alone zero pc i lt few d = absurd (omega arith)
  gather-alone (suc n) pc i lt few d = elim (Bool-cases (i == n)) [
    | inl last ↦ let e = (==_iff i n).0 last in rw (gather-none n pc (ground arith), ← e)
    | inr below ↦
        rw (local-nil (pc n) (ground (arith, le-tally drives n pc i)), append-nil)
          (gather-alone n pc i (ground arith) (omega arith) d)
  ]

  -- The tasks run, those taken, and those in the queue are the accepted ones.
  abbrev pub InOrder : ℕ → Strand T → (ℕ → Pc T) → Type 0
  InOrder n s pc = s.accepted ≡ s.executed ++ (gather n pc ++ s.tasks)

  -- A step that moves no task.
  still-InOrder :
      (n : ℕ) (s s' : Strand T) (pc : ℕ → Pc T) (i : ℕ) (p : Pc T)
      → local p ≡ local (pc i)
      → s'.accepted ≡ s.accepted
      → s'.executed ≡ s.executed
      → s'.tasks ≡ s.tasks
      → InOrder n s pc
      → InOrder n s' (update pc i p)
  still-InOrder n s s' pc i p same a e t h = rw (gather-same n pc i p same, a, e, t) h

  link-InOrder :
      (n : ℕ) (s : Strand T) (v : T) (pc : ℕ → Pc T) (i : ℕ)
      → pc i ≡ outside
      → InOrder n s pc
      → InOrder n (put_link v s) (update pc i linked)
  unfolding put_link
  link-InOrder n s v pc i e h =
      rw (gather-same n pc i linked (ground arith), h, append_assoc, append_assoc)

  -- The driver's next local tasks are all there are.
  gather-set :
      (n : ℕ) (pc : ℕ → Pc T) (i : ℕ) (p : Pc T)
      → i < n
      → tally drives n pc ≤ 1
      → drives (pc i) ≡ 1
      → gather n (update pc i p) ≡ local p
  gather-set n pc i p lt few d = elim (Bool-cases (drives p == 1)) [
    | inl one ↦
        let here : update pc i p i ≡ p = ground arith in
        gather-alone n (update pc i p) i lt (ground (arith, tally-update drives n pc i p))
          (rw here (ground arith))
        ∙ ap local here
    | inr other ↦
        let zero_drives : drives p ≡ 0 = ground arith in
        gather-none n (update pc i p) (ground (arith, tally-update drives n pc i p))
        ∙ sym (local-nil p zero_drives)
  ]

  take-InOrder :
      (n : ℕ) (s : Strand T) (xs batch : List T) (pc : ℕ → Pc T) (i : ℕ)
      → i < n
      → pc i ≡ run_take batch
      → xs ≡ s.tasks
      → xs ≢ []
      → tally drives n pc ≤ 1
      → InOrder n s pc
      → let r = take_node xs batch s in InOrder n r.0 (update pc i r.1)
  unfolding take_node
  take-InOrder n s [] batch pc i lt e q some_task few h = absurd (some_task refl)
  take-InOrder n s (x ∷ xs) batch pc i lt e q some_task few h =
      let d : drives (pc i) ≡ 1 = ground arith in
      let old = gather-alone n pc i lt few d in
      let new = gather-set n pc i (run_taken batch x) lt few d in
      rw (new, append_assoc) (rw (old, e, ← q) at h)

  task-InOrder :
      (n : ℕ) (s : Strand T) (batch : List T) (done : ℕ) (pc : ℕ → Pc T) (i : ℕ)
      → i < n
      → pc i ≡ run_tasks batch done
      → tally drives n pc ≤ 1
      → InOrder n s pc
      → let r = run_task batch done s in InOrder n r.0 (update pc i r.1)
  unfolding run_task
  task-InOrder n s [] done pc i lt e few h =
      still-InOrder n s s pc i (run_sub done) (rw e) refl refl refl h
  task-InOrder n s (x ∷ batch) done pc i lt e few h =
      let d : drives (pc i) ≡ 1 = ground arith in
      let old = gather-alone n pc i lt few d in
      let new = gather-set n pc i (run_tasks batch (suc done)) lt few d in
      rw (new, append_assoc) (rw (old, e) at h)

  act-InOrder :
      (n k : ℕ) (call : Call T) (s : Strand T) (pc : ℕ → Pc T) (i : ℕ)
      → i < n
      → Inv k s (count n pc)
      → (p : Pc T) → pc i ≡ p
      → InOrder n s pc
      → let r = act call s p in InOrder n r.0 (update pc i r.1)
  unfolding act
  act-InOrder n k (call_submit v) s pc i lt inv outside e h = link-InOrder n s v pc i e h
  act-InOrder n k call_run s pc i lt inv outside e h =
      unfold start_run in ground (arith, gather-same n pc i (start_run s).1)
  act-InOrder n k call s pc i lt inv counted e h =
      unfold schedule in ground (arith, gather-same n pc i (schedule s).1)
  act-InOrder n k call s pc i lt inv (run_take batch) e h =
      take-InOrder n s s.tasks batch pc i lt e refl
        (let d = driver n i pc lt in λ none. ground (arith, inv, d)) (omega (arith, inv.one_driver))
        h
  act-InOrder n k call s pc i lt inv (run_tasks batch done) e h =
      task-InOrder n s batch done pc i lt e (omega (arith, inv.one_driver)) h
  act-InOrder n k call s pc i lt inv p e h =
      unfold finish in ground (arith, gather-same n pc i (act call s p).1)

  step-InOrder :
      (n k i : ℕ) (call : Call T) (w : World (Strand T) (Pc T))
      → i < n
      → Inv k w.mem (count n w.pc)
      → InOrder n w.mem w.pc
      → InOrder n (step i call w).mem (step i call w).pc
  unfolding step
  step-InOrder n k i call w lt inv h = act-InOrder n k call w.mem w.pc i lt inv (w.pc i) refl h

  pub run-InOrder :
      (n : ℕ) (ts : List (ℕ × Call T))
      → n < 2 ^ 62
      → length ts < 2 ^ 62
      → let w = run step n ts init in
        Inv (0 + length ts) w.mem (count n w.pc) × InOrder n w.mem w.pc
  run-InOrder n ts few short =
      run_inv_timed step n (λ k w. Inv k w.mem (count n w.pc) × InOrder n w.mem w.pc) (length ts)
        (λ k i call w time lt h. (
          step-Inv (length ts) short n few k i call w time lt h.0,
          step-InOrder n k i call w lt h.0 h.1,
        ))
        (λ k w h. (later n k w h.0, h.1)) ts 0 init (omega arith)
        (
          init-Inv n,
          rw (gather-none n init.pc (tally-eq-zero drives n init.pc (λ _ _. omega arith))),
        )
