-- ===== src/Exec/Strand/Moves.antt =====
-- Every access of every thread keeps the strand's counts
-- (tasks/tasks/executors/exe/executors/strand.cpp).
use concurrency_course_by_li.Base.{
  ℕ, suc, ◌+◌, ◌^◌, ◌≤◌, ◌<◌, ◌≡◌, refl, ap, List, [], ◌∷◌, arith, length, length-append,
}
use concurrency_course_by_li.Threads.{
  update, tally, tally-update, tally-eq-zero, tally-alone, tally-none, add-tally-le, World,
}
use concurrency_course_by_li.Exec.Strand.{
  crashed, run_release, run_posting, run_adding_ref, posting, adding_ref, call_submit, call_run,
  init, step, Strand, Pc, outside, linked, counted, run_take, run_taken, run_check, run_tasks,
  run_sub, Call, call_submit, act, take_node, run_task, finish, start_run, schedule,
}
use concurrency_course_by_li.Exec.Strand.Invariant.{
  unsized, unscheduled, drives, unpopped, in_batch, takes, holds_ref, crashes, Counts, count, Inv,
}

module _ {T : Type 0} where
  -- A thread goes from `p` to `p'`: how the counts change.
  record Moved (c c' : Counts) (p p' : Pc T) : Type 0 where
    unsized_moves : c'.unsized_n + unsized p ≡ c.unsized_n + unsized p'
    unscheduled_moves : c'.unscheduled_n + unscheduled p ≡ c.unscheduled_n + unscheduled p'
    drives_moves : c'.drives_n + drives p ≡ c.drives_n + drives p'
    unpopped_moves : c'.unpopped_n + unpopped p ≡ c.unpopped_n + unpopped p'
    in_batch_moves : c'.in_batch_n + in_batch p ≡ c.in_batch_n + in_batch p'
    takes_moves : c'.takes_n + takes p ≡ c.takes_n + takes p'
    holds_ref_moves : c'.holds_ref_n + holds_ref p ≡ c.holds_ref_n + holds_ref p'
    crashes_moves : c'.crashes_n + crashes p ≡ c.crashes_n + crashes p'

  moved :
      (n i : ℕ) (pc : ℕ → Pc T) (p' : Pc T)
      → i < n
      → Moved (count n pc) (count n (update pc i p')) (pc i) p'
  moved n i pc p' lt = record {
    unsized_moves = tally-update unsized n pc i p' lt;
    unscheduled_moves = tally-update unscheduled n pc i p' lt;
    drives_moves = tally-update drives n pc i p' lt;
    unpopped_moves = tally-update unpopped n pc i p' lt;
    in_batch_moves = tally-update in_batch n pc i p' lt;
    takes_moves = tally-update takes n pc i p' lt;
    holds_ref_moves = tally-update holds_ref n pc i p' lt;
    crashes_moves = tally-update crashes n pc i p' lt;
  }

  -- What the driver's batch says of the sums, and what having no driver says.
  pub record Driver (c : Counts) (p : Pc T) : Type 0 where
    pub batch_here : c.drives_n ≤ 1 → drives p ≡ 1 → c.in_batch_n ≡ in_batch p
    pub unpopped_here : c.drives_n ≤ 1 → drives p ≡ 1 → c.unpopped_n ≡ unpopped p
    pub takes_here : c.drives_n ≤ 1 → drives p ≡ 1 → c.takes_n ≡ takes p
    pub batch_none : c.drives_n ≡ 0 → c.in_batch_n ≡ 0
    pub unpopped_none : c.drives_n ≡ 0 → c.unpopped_n ≡ 0
    pub takes_none : c.drives_n ≡ 0 → c.takes_n ≡ 0

  pub driver : (n i : ℕ) (pc : ℕ → Pc T) → i < n → Driver (count n pc) (pc i)
  driver n i pc lt = record {
    batch_here = λ few d. tally-alone drives in_batch (λ p h. ground arith) n pc i lt few d;
    unpopped_here = λ few d. tally-alone drives unpopped (λ p h. ground arith) n pc i lt few d;
    takes_here = λ few d. tally-alone drives takes (λ p h. ground arith) n pc i lt few d;
    batch_none = λ h. tally-none drives in_batch (λ p e. ground arith) n pc h;
    unpopped_none = λ h. tally-none drives unpopped (λ p e. ground arith) n pc h;
    takes_none = λ h. tally-none drives takes (λ p e. ground arith) n pc h;
  }

  module _ (limit : ℕ) (small : limit < 2 ^ 62) where
    -- The invariant before, a move, and what is known of the number of threads in `Submit`.
    record Before (k : ℕ) (s : Strand T) (c c' : Counts) (p p' : Pc T) : Type 0 where
      time : k < limit
      inv : Inv k s c
      moves : Moved c c' p p'
      driver : Driver c p
      crowd : c.unsized_n + c.unscheduled_n < 2 ^ 62
      crowd' : c'.unsized_n + c'.unscheduled_n < 2 ^ 62

    abbrev Keeps : ℕ → Strand T → Counts → Counts → Pc T → Strand T × Pc T → Type 0
    Keeps k s c c' p r = Before k s c c' p r.1 → Inv (suc k) r.0 c'

    submit-Inv :
        (k : ℕ) (s : Strand T) (c c' : Counts) (v : T)
        → Keeps k s c c' outside (act (call_submit v) s outside)
    unfolding act
    submit-Inv k s c c' v b = ground (arith, b, length-append s.tasks (v ∷ []))

    start-Inv : (k : ℕ) (s : Strand T) (c c' : Counts) → Keeps k s c c' outside (start_run s)
    unfolding start_run
    start-Inv k s c c' b = ground (arith, b)

    linked-Inv :
        (k : ℕ) (s : Strand T) (c c' : Counts) (call : Call T)
        → Keeps k s c c' linked (act call s linked)
    unfolding act
    linked-Inv k s c c' call b = ground (arith, b)

    schedule-Inv : (k : ℕ) (s : Strand T) (c c' : Counts) → Keeps k s c c' counted (schedule s)
    unfolding schedule
    schedule-Inv k s c c' b = ground (arith, b)

    take-Inv :
        (k : ℕ) (xs batch : List T) (s : Strand T) (c c' : Counts)
        → xs ≡ s.tasks
        → Keeps k s c c' (run_take batch) (take_node xs batch s)
    unfolding take_node
    take-Inv k [] batch s c c' e b = ground (arith, b, ap length e)
    take-Inv k (x ∷ xs) batch s c c' e b = ground (arith, b, ap length e)

    taken-Inv :
        (k : ℕ) (s : Strand T) (c c' : Counts) (call : Call T) (batch : List T) (v : T)
        → Keeps k s c c' (run_taken batch v) (act call s (run_taken batch v))
    unfolding act
    taken-Inv k s c c' call batch v b = ground (arith, b, length-append batch (v ∷ []))

    check-Inv :
        (k : ℕ) (s : Strand T) (c c' : Counts) (call : Call T) (batch : List T)
        → Keeps k s c c' (run_check batch) (act call s (run_check batch))
    unfolding act
    check-Inv k s c c' call batch b = ground (arith, b)

    task-Inv :
        (k : ℕ) (batch : List T) (count : ℕ) (s : Strand T) (c c' : Counts)
        → Keeps k s c c' (run_tasks batch count) (run_task batch count s)
    unfolding run_task
    task-Inv k [] count s c c' b = ground (arith, b)
    task-Inv k (x ∷ xs) count s c c' b = ground (arith, b)

    finish-Inv :
        (k : ℕ) (completed : ℕ) (s : Strand T) (c c' : Counts)
        → Keeps k s c c' (run_sub completed) (finish completed s)
    unfolding finish
    finish-Inv k completed s c c' b = ground (arith, b)

    act-Inv :
        (k : ℕ) (call : Call T) (s : Strand T) (c c' : Counts) (p : Pc T)
        → Keeps k s c c' p (act call s p)
    unfolding act
    act-Inv k (call_submit v) s c c' outside b = submit-Inv k s c c' v b
    act-Inv k call_run s c c' outside b = start-Inv k s c c' b
    act-Inv k call s c c' linked b = linked-Inv k s c c' call b
    act-Inv k call s c c' counted b = schedule-Inv k s c c' b
    act-Inv k call s c c' adding_ref b = ground (arith, b)
    act-Inv k call s c c' posting b = ground (arith, b)
    act-Inv k call s c c' (run_take batch) b = take-Inv k s.tasks batch s c c' refl b
    act-Inv k call s c c' (run_taken batch v) b = taken-Inv k s c c' call batch v b
    act-Inv k call s c c' (run_check batch) b = check-Inv k s c c' call batch b
    act-Inv k call s c c' (run_tasks batch done) b = task-Inv k batch done s c c' b
    act-Inv k call s c c' (run_sub completed) b = finish-Inv k completed s c c' b
    act-Inv k call s c c' run_adding_ref b = ground (arith, b)
    act-Inv k call s c c' run_posting b = ground (arith, b)
    act-Inv k call s c c' run_release b = ground (arith, b)
    act-Inv k call s c c' crashed b = ground (arith, b)

    crowd-le : (n : ℕ) (pc : ℕ → Pc T) → tally unsized n pc + tally unscheduled n pc ≤ n
    crowd-le n pc = add-tally-le unsized unscheduled (λ p. ground arith) n pc

    pub step-Inv :
        (n : ℕ)
        → n < 2 ^ 62
        → (k i : ℕ) (call : Call T) (w : World (Strand T) (Pc T)) → k < limit
        → i < n
        → Inv k w.mem (count n w.pc)
        → Inv (suc k) (step i call w).mem (count n (step i call w).pc)
    unfolding step
    step-Inv n few k i call w time lt inv =
        act-Inv k call w.mem (count n w.pc) (count n (update w.pc i (act call w.mem (w.pc i)).1))
          (w.pc i)
          (record {
            time = time;
            inv = inv;
            moves = moved n i w.pc _ lt;
            driver = driver n i w.pc lt;
            crowd = omega (arith, crowd-le n w.pc);
            crowd' = omega (arith, crowd-le n (update w.pc i (act call w.mem (w.pc i)).1));
          })

  pub later :
      (n k : ℕ) (w : World (Strand T) (Pc T))
      → Inv k w.mem (count n w.pc)
      → Inv (suc k) w.mem (count n w.pc)
  later n k w inv = ground (arith, inv)

  pub init-Inv : (n : ℕ) → Inv 0 (init {T = T}).mem (count n (init {T = T}).pc)
  init-Inv n = ground (
    arith,
    none unsized,
    none unscheduled,
    none drives,
    none unpopped,
    none in_batch,
    none takes,
    none holds_ref,
    none crashes,
  )
    where
      none : (w : Pc T → ℕ) → w outside ≡ 0 → tally w n (λ _. outside) ≡ 0
      none w h = tally-eq-zero w n _ (λ _ _. h)
