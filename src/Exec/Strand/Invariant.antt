-- ===== src/Exec/Strand/Invariant.antt =====
-- The counts that tie the strand's two counters to its queue and its threads
-- (tasks/tasks/executors/exe/executors/strand.cpp).
use concurrency_course_by_li.Base.{ℕ, ◌+◌, ◌≤◌, ◌<◌, ◌≡◌, ◌⊎◌, length, size_mod}
use concurrency_course_by_li.Threads.{tally}
use concurrency_course_by_li.Exec.Strand.{
  Strand, Pc, linked, counted, adding_ref, posting, run_take, run_taken, run_check, run_tasks,
  run_sub, run_adding_ref, run_posting, run_release, crashed,
}

-- The sums of the weights below over the threads.
pub record Counts : Type 0 where
  pub unsized_n : ℕ
  pub unscheduled_n : ℕ
  pub drives_n : ℕ
  pub unpopped_n : ℕ
  pub in_batch_n : ℕ
  pub takes_n : ℕ
  pub holds_ref_n : ℕ
  pub crashes_n : ℕ

module _ {T : Type 0} where
  -- Linked, and not yet counted by `size_`.
  abbrev pub unsized : Pc T → ℕ
  unsized linked = 1
  unsized _ = 0

  -- Counted by `size_`, and not yet by `scheduled_`.
  abbrev pub unscheduled : Pc T → ℕ
  unscheduled counted = 1
  unscheduled _ = 0

  -- Responsible for the strand: it is about to submit the strand or is running it.
  abbrev pub drives : Pc T → ℕ
  drives adding_ref = 1
  drives posting = 1
  drives (run_take _) = 1
  drives (run_taken _ _) = 1
  drives (run_check _) = 1
  drives (run_tasks _ _) = 1
  drives (run_sub _) = 1
  drives run_adding_ref = 1
  drives run_posting = 1
  drives _ = 0

  -- A node taken, and still counted by `size_`.
  abbrev pub unpopped : Pc T → ℕ
  unpopped (run_taken _ _) = 1
  unpopped _ = 0

  -- Tasks that no longer count in `size_`, and still in `scheduled_`.
  abbrev pub in_batch : Pc T → ℕ
  in_batch (run_take batch) = length batch
  in_batch (run_taken batch _) = length batch
  in_batch (run_check batch) = length batch
  in_batch (run_tasks batch count) = length batch + count
  in_batch (run_sub completed) = completed
  in_batch _ = 0

  -- Before the end of a `Take`.
  abbrev pub takes : Pc T → ℕ
  takes (run_take _) = 1
  takes (run_taken _ _) = 1
  takes _ = 0

  -- Holds a reference that `AddRef` counted.
  abbrev pub holds_ref : Pc T → ℕ
  holds_ref posting = 1
  holds_ref (run_take _) = 1
  holds_ref (run_taken _ _) = 1
  holds_ref (run_check _) = 1
  holds_ref (run_tasks _ _) = 1
  holds_ref (run_sub _) = 1
  holds_ref run_adding_ref = 1
  holds_ref run_posting = 2
  holds_ref run_release = 1
  holds_ref _ = 0

  abbrev pub crashes : Pc T → ℕ
  crashes crashed = 1
  crashes _ = 0

  abbrev pub count : ℕ → (ℕ → Pc T) → Counts
  count n pc = record {
    unsized_n = tally unsized n pc;
    unscheduled_n = tally unscheduled n pc;
    drives_n = tally drives n pc;
    unpopped_n = tally unpopped n pc;
    in_batch_n = tally in_batch n pc;
    takes_n = tally takes n pc;
    holds_ref_n = tally holds_ref n pc;
    crashes_n = tally crashes n pc;
  }

  -- `k` turns were taken so far. While nobody drives the strand, `scheduled_` is at most 0: it is
  -- 0, or has wrapped around below 0 by the tasks that were run before they were counted.
  pub record Inv (k : ℕ) (s : Strand T) (c : Counts) : Type 0 where
    pub one_driver : s.submitted + c.drives_n ≤ 1
    pub sized : s.size + c.unsized_n ≡ length s.tasks + c.unpopped_n
    pub busy :
        s.submitted + c.drives_n ≡ 1
        → (s.scheduled + c.unscheduled_n + c.unsized_n
            ≡ length s.tasks + c.in_batch_n + c.unpopped_n)
          × (1 ≤ s.scheduled)
    pub idle :
        s.submitted + c.drives_n ≡ 0
        → ((s.scheduled ≡ 0) × (length s.tasks ≡ c.unscheduled_n + c.unsized_n))
          ⊎ ((s.scheduled + c.unscheduled_n + c.unsized_n ≡ length s.tasks + size_mod)
              × (s.scheduled < size_mod))
    pub takes_some : c.takes_n ≤ s.size
    pub counted_refs : s.refs ≡ 1 + s.submitted + c.holds_ref_n
    pub few : length s.tasks + c.in_batch_n + c.unpopped_n ≤ k
    pub alive : c.crashes_n ≡ 0
