-- ===== src/Cond/BoundedQueue/Tests.antt =====
-- The bounded queue (tasks/cond/semaphore/queue.hpp) at work, and its theorems there.
use concurrency_course_by_li.Base.{
  ℕ, zero, suc, ◌+◌, ◌≤◌, ◌<◌, ◌≡◌, refl, ◌≢◌, List, [], ◌∷◌, ◌++◌, arith, length,
}
use concurrency_course_by_li.Threads.{run}
use concurrency_course_by_li.Cond.Semaphore.{make}
use concurrency_course_by_li.Cond.BoundedQueue.{
  outside, putting, token_asleep, Call, call_put, call_take, step, init,
}
use concurrency_course_by_li.Cond.BoundedQueue.Order.{queue_fifo}
use concurrency_course_by_li.Cond.BoundedQueue.Safety.{
  queue_bounded, queue_pop_safe, queue_exclusion, queue_no_lost_wakeup, queue_quiet_tokens,
}

-- Six turns of one thread.
abbrev turns : ℕ → Call ℕ → List (ℕ × Call ℕ)
turns i c = (i, c) ∷ (i, c) ∷ (i, c) ∷ (i, c) ∷ (i, c) ∷ (i, c) ∷ []

-- Thread 0 puts 7 into a queue for one value, and thread 1 sleeps because it is full.
abbrev full : List (ℕ × Call ℕ)
full = turns 0 (call_put 7) ++ (1, call_put 8) ∷ []

full_state :
    let w = run step 2 full (init 1) in (w.mem.buffer ≡ 7 ∷ []) × (w.pc 1 ≡ putting 8 token_asleep)
unfolding run step
full_state = (refl, refl)

-- Thread 0 takes the value; thread 1 is woken and puts its own.
drained :
    let w = run step 2 (full ++ turns 0 call_take ++ turns 1 call_take) (init 1) in
    (w.mem.buffer ≡ 8 ∷ []) × (w.mem.taken ≡ 7 ∷ []) × (w.pc 1 ≡ outside)
unfolding run step
drained = (refl, refl, refl)

queue_fifo_example : let q = (run step 2 full (init 1)).mem in q.accepted ≡ q.taken ++ q.buffer
queue_fifo_example = queue_fifo 2 1 (omega arith) full

queue_bounded_example : length (run step 2 full (init 1)).mem.buffer ≤ 1
queue_bounded_example = queue_bounded 2 1 (omega arith) full

-- Thread 0 is about to pop.
abbrev popping : List (ℕ × Call ℕ)
popping = full ++ (0, call_take) ∷ (0, call_take) ∷ []

queue_pop_safe_example : (run step 2 popping (init 1)).mem.buffer ≢ []
unfolding run step
queue_pop_safe_example = queue_pop_safe 2 1 (omega arith) popping 0 (omega arith) refl

queue_exclusion_example : ◌≡◌ {A = ℕ} 0 0
unfolding run step
queue_exclusion_example =
    queue_exclusion 2 1 (omega arith) popping 0 0 (omega arith) (omega arith) refl refl

queue_no_lost_wakeup_example : ◌≡◌ {A = ℕ} 0 0
unfolding run step
queue_no_lost_wakeup_example =
    queue_no_lost_wakeup 2 1 (omega arith) full 1 (make 0) (omega arith) refl

abbrev one_put : List (ℕ × Call ℕ)
one_put = turns 0 (call_put 7)

one_put_quiet : (i : ℕ) → i < 1 → (run step 1 one_put (init 3)).pc i ≡ outside
unfolding run step
one_put_quiet zero lt = refl
one_put_quiet (suc i) lt = absurd (omega arith)

queue_quiet_tokens_example :
    let q = (run step 1 one_put (init 3)).mem in
    (q.avail_sem.tokens ≡ length q.buffer)
    × (q.free_sem.tokens + length q.buffer ≡ 3)
    × (q.mutex_sem.tokens ≡ 1)
queue_quiet_tokens_example = queue_quiet_tokens 1 3 (omega arith) one_put one_put_quiet
