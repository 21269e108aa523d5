-- ===== src/Cond/BoundedQueue/Invariant.antt =====
-- Where the tokens of the bounded queue (tasks/cond/semaphore/queue.hpp) are, and who sleeps.
use concurrency_course_by_li.Base.{
  ℕ, suc, ◌+◌, ◌≤◌, ◌<◌, ◌≡◌, refl, ap, ◌≢◌, Option, none, some, List, [], ◌∷◌, arith, length,
  length-append, size_mod,
}
use concurrency_course_by_li.Threads.{
  update, tally, tally-update, tally-eq-zero, tally-map, tally-map_le, World,
}
use concurrency_course_by_li.Cond.BoundedQueue.{
  call_take, call_put, init, Call, act, step, put_line, take_line, write_back, take_front,
  pop_front, Queue, Line, want_token, token_asleep, want_mutex, mutex_asleep, at_buffer,
  leave_mutex, give_token, Pc, outside, putting, pushing, taking, popping, Notify, free_sleepers,
  avail_sleepers, mutex_sleepers, wake,
}

module _ {T : Type 0} where
  -- Between the acquire and the release of the mutex semaphore.
  abbrev pub in_mutex : Pc T → ℕ
  in_mutex (putting _ at_buffer) = 1
  in_mutex (putting _ leave_mutex) = 1
  in_mutex (pushing _ _) = 1
  in_mutex (taking at_buffer) = 1
  in_mutex (popping _) = 1
  in_mutex (taking leave_mutex) = 1
  in_mutex _ = 0

  -- Has taken a token from one semaphore and not given it to the other.
  abbrev pub has_token : Pc T → ℕ
  has_token outside = 0
  has_token (putting _ want_token) = 0
  has_token (putting _ token_asleep) = 0
  has_token (taking want_token) = 0
  has_token (taking token_asleep) = 0
  has_token _ = 1

  -- An item of the buffer that no token of `avail_sem` stands for.
  abbrev pub extra : Pc T → ℕ
  extra (putting _ leave_mutex) = 1
  extra (putting _ give_token) = 1
  extra (taking want_mutex) = 1
  extra (taking mutex_asleep) = 1
  extra (taking at_buffer) = 1
  extra (popping _) = 1
  extra _ = 0

  abbrev pub sleeps_free : Pc T → ℕ
  sleeps_free (putting _ token_asleep) = 1
  sleeps_free _ = 0

  abbrev pub sleeps_avail : Pc T → ℕ
  sleeps_avail (taking token_asleep) = 1
  sleeps_avail _ = 0

  abbrev pub sleeps_mutex : Pc T → ℕ
  sleeps_mutex (putting _ mutex_asleep) = 1
  sleeps_mutex (taking mutex_asleep) = 1
  sleeps_mutex _ = 0

  -- The buffer as a `push_back` has seen it, and the value that a `front` has seen.
  abbrev pub back_of : Pc T → Option (List T)
  back_of (pushing v b) = some b
  back_of _ = none

  abbrev pub front_of : Pc T → Option T
  front_of (popping v) = some v
  front_of _ = none

  pub record Inv (n capacity : ℕ) (q : Queue T) (pc : ℕ → Pc T) : Type 0 where
    pub small : capacity < size_mod
    pub mutex : q.mutex_sem.tokens + tally in_mutex n pc ≡ 1
    pub tokens : q.free_sem.tokens + q.avail_sem.tokens + tally has_token n pc ≡ capacity
    pub items : length q.buffer ≡ q.avail_sem.tokens + tally extra n pc
    pub free_awake : q.free_sem.tokens ≢ 0 → tally sleeps_free n pc ≡ 0
    pub avail_awake : q.avail_sem.tokens ≢ 0 → tally sleeps_avail n pc ≡ 0
    pub mutex_awake : q.mutex_sem.tokens ≢ 0 → tally sleeps_mutex n pc ≡ 0

  module _ (n capacity : ℕ) where
    -- The counts after the sleepers of a semaphore were woken.
    record Woken (s : Notify) (pc : ℕ → Pc T) : Type 0 where
      in_mutex_kept : tally in_mutex n (λ k. wake s (pc k)) ≡ tally in_mutex n pc
      has_token_kept : tally has_token n (λ k. wake s (pc k)) ≡ tally has_token n pc
      extra_kept : tally extra n (λ k. wake s (pc k)) ≡ tally extra n pc
      free_fewer : tally sleeps_free n (λ k. wake s (pc k)) ≤ tally sleeps_free n pc
      avail_fewer : tally sleeps_avail n (λ k. wake s (pc k)) ≤ tally sleeps_avail n pc
      mutex_fewer : tally sleeps_mutex n (λ k. wake s (pc k)) ≤ tally sleeps_mutex n pc
      free_none : s ≡ free_sleepers → tally sleeps_free n (λ k. wake s (pc k)) ≡ 0
      avail_none : s ≡ avail_sleepers → tally sleeps_avail n (λ k. wake s (pc k)) ≡ 0
      mutex_none : s ≡ mutex_sleepers → tally sleeps_mutex n (λ k. wake s (pc k)) ≡ 0

    woken : (s : Notify) (pc : ℕ → Pc T) → Woken s pc
    woken s pc = record {
      in_mutex_kept = tally-map in_mutex in_mutex (wake s) (λ p. ground arith) n pc;
      has_token_kept = tally-map has_token has_token (wake s) (λ p. ground arith) n pc;
      extra_kept = tally-map extra extra (wake s) (λ p. ground arith) n pc;
      free_fewer = tally-map_le sleeps_free sleeps_free (wake s) (λ p. ground arith) n pc;
      avail_fewer = tally-map_le sleeps_avail sleeps_avail (wake s) (λ p. ground arith) n pc;
      mutex_fewer = tally-map_le sleeps_mutex sleeps_mutex (wake s) (λ p. ground arith) n pc;
      free_none = λ e. tally-eq-zero sleeps_free n _ (λ k lt. ground arith);
      avail_none = λ e. tally-eq-zero sleeps_avail n _ (λ k lt. ground arith);
      mutex_none = λ e. tally-eq-zero sleeps_mutex n _ (λ k lt. ground arith);
    }

    -- Thread `i` goes from `p` to `p'` and wakes the sleepers `s`: how the count `w` changes.
    abbrev Moves : (Pc T → ℕ) → ℕ → (ℕ → Pc T) → Notify → Pc T → Pc T → Type 0
    Moves w i pc s p p' =
        let woke = λ (k : ℕ). wake s (pc k) in
        tally w n (update woke i p') + w (wake s p) ≡ tally w n woke + w p'

    record Moved (i : ℕ) (pc : ℕ → Pc T) (s : Notify) (p p' : Pc T) : Type 0 where
      woke : Woken s pc
      in_mutex_moves : Moves in_mutex i pc s p p'
      has_token_moves : Moves has_token i pc s p p'
      extra_moves : Moves extra i pc s p p'
      free_moves : Moves sleeps_free i pc s p p'
      avail_moves : Moves sleeps_avail i pc s p p'
      mutex_moves : Moves sleeps_mutex i pc s p p'

    moved : (i : ℕ) (pc : ℕ → Pc T) (s : Notify) (p' : Pc T) → i < n → Moved i pc s (pc i) p'
    moved i pc s p' lt = record {
      woke = woken s pc;
      in_mutex_moves = tally-update in_mutex n _ i p' lt;
      has_token_moves = tally-update has_token n _ i p' lt;
      extra_moves = tally-update extra n _ i p' lt;
      free_moves = tally-update sleeps_free n _ i p' lt;
      avail_moves = tally-update sleeps_avail n _ i p' lt;
      mutex_moves = tally-update sleeps_mutex n _ i p' lt;
    }

    abbrev After : ℕ → (ℕ → Pc T) → Queue T × Pc T × Notify → Type 0
    After i pc r = Inv n capacity r.0 (update (λ k. wake r.2 (pc k)) i r.1)

    put-Inv :
        (i : ℕ) (q : Queue T) (pc : ℕ → Pc T) (v : T) (l : Line)
        → let r = put_line v l q in
          Moved i pc r.2 (putting v l) r.1 → Inv n capacity q pc → After i pc r
    unfolding put_line
    put-Inv i q pc v want_token m inv = ground (arith, m)
    put-Inv i q pc v l m inv = ground (arith, m)

    take-Inv :
        (i : ℕ) (q : Queue T) (pc : ℕ → Pc T) (l : Line)
        → let r = take_line l q in
          Moved i pc r.2 (taking l) r.1 → Inv n capacity q pc → After i pc r
    unfolding take_line take_front
    take-Inv i q pc want_token m inv = ground (arith, m)
    take-Inv i q pc l m inv = ground (arith, m)

    pop-Inv :
        (i : ℕ) (q : Queue T) (pc : ℕ → Pc T) (v : T) (b : List T)
        → q.buffer ≡ b
        → let r = pop_front v b q in
          Moved i pc r.2 (popping v) r.1 → Inv n capacity q pc → After i pc r
    unfolding pop_front
    pop-Inv i q pc v [] e m inv = ground (arith, m)
    pop-Inv i q pc v (x ∷ rest) e m inv =
        let fewer : length q.buffer ≡ suc (length rest) = ap length e in ground (arith, m, fewer)

    -- A thread that is to write the buffer back has seen it as it is.
    act-Inv :
        (i : ℕ) (c : Call T) (q : Queue T) (pc : ℕ → Pc T) (p : Pc T)
        → ((b : List T) → back_of p ≡ some b → b ≡ q.buffer)
        → let r = act c q p in Moved i pc r.2 p r.1 → Inv n capacity q pc → After i pc r
    unfolding act put_line take_line write_back
    act-Inv i (call_put v) q pc outside fresh m inv = ground (arith, m)
    act-Inv i call_take q pc outside fresh m inv = ground (arith, m)
    act-Inv i c q pc (putting v l) fresh m inv = put-Inv i q pc v l m inv
    act-Inv i c q pc (pushing v b) fresh m inv =
        let same : length b ≡ length q.buffer = ap length (fresh b refl) in
        ground (arith, m, same, length-append b (v ∷ []))
    act-Inv i c q pc (taking l) fresh m inv = take-Inv i q pc l m inv
    act-Inv i c q pc (popping v) fresh m inv = pop-Inv i q pc v q.buffer refl m inv

    pub step-Inv :
        (i : ℕ) (c : Call T) (w : World (Queue T) (Pc T))
        → i < n
        → ((b : List T) → back_of (w.pc i) ≡ some b → b ≡ w.mem.buffer)
        → Inv n capacity w.mem w.pc
        → Inv n capacity (step i c w).mem (step i c w).pc
    unfolding step
    step-Inv i c w lt fresh inv =
        act-Inv i c w.mem w.pc (w.pc i) fresh (moved i w.pc (act c w.mem (w.pc i)).2 _ lt) inv

    pub init-Inv : capacity < size_mod → Inv n capacity (init capacity).mem (init capacity).pc
    init-Inv small = ground (
      arith,
      none_at in_mutex,
      none_at has_token,
      none_at extra,
      none_at sleeps_free,
      none_at sleeps_avail,
      none_at sleeps_mutex,
    )
      where
        none_at : (w : Pc T → ℕ) → w outside ≡ 0 → tally w n (λ _. outside) ≡ 0
        none_at w h = tally-eq-zero w n _ (λ _ _. h)
