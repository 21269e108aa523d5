-- ===== src/Exec/BlockingQueue/Order.antt =====
-- The order of the values of the blocking queue (tasks/tasks/thread-pool/tp/queue.hpp), and what
-- `Close` means.
use concurrency_course_by_li.Base.{
  ℕ, ◌≡◌, refl, sym, ap, ◌∙◌, inl, inr, Bool, false, Option, List, [], ◌∷◌, ◌++◌, append_assoc,
  arith, Bool-cases,
}
use concurrency_course_by_li.Threads.{World, run, run_inv}
use concurrency_course_by_li.Exec.BlockingQueue.{
  Queue, Pc, outside, notifying, asleep, woken, closing, Call, call_put, call_take, call_close,
  put_section, pop_front, take_section, close_section, act, step, init,
}

module _ {T : Type 0} where
  abbrev InOrder : Queue T → Type 0
  InOrder q = q.accepted ≡ q.taken ++ q.queue

  put_section-InOrder : (v : T) (q : Queue T) → InOrder q → InOrder (put_section v q).0
  unfolding put_section
  put_section-InOrder v q h = elim (Bool-cases q.is_opened) [
    | inl yes_open ↦
        rw yes_open (ap (λ (xs : List T). xs ++ (v ∷ [])) h ∙ append_assoc q.taken q.queue (v ∷ []))
    | inr closed ↦ rw closed h
  ]

  pop_front-InOrder :
      (xs : List T) (q : Queue T) → xs ≡ q.queue → InOrder q → InOrder (pop_front xs q).0
  unfolding pop_front
  pop_front-InOrder [] q e h = h
  pop_front-InOrder (x ∷ xs) q e h =
      h ∙ ap (λ (ys : List T). q.taken ++ ys) (sym e) ∙ sym (append_assoc q.taken (x ∷ []) xs)

  take_section-InOrder : (q : Queue T) → InOrder q → InOrder (take_section q).0
  unfolding take_section
  take_section-InOrder q h = ground (arith, h, pop_front-InOrder q.queue q refl h)

  act-InOrder : (c : Call T) (q : Queue T) (p : Pc T) → InOrder q → InOrder (act c q p).0
  unfolding act
  act-InOrder (call_put v) q (outside _) h = put_section-InOrder v q h
  act-InOrder call_take q (outside _) h = take_section-InOrder q h
  act-InOrder call_close q (outside _) h = ground (arith, h)
  act-InOrder c q notifying h = h
  act-InOrder call_take q asleep h = take_section-InOrder q h
  act-InOrder (call_put v) q asleep h = h
  act-InOrder call_close q asleep h = h
  act-InOrder c q woken h = take_section-InOrder q h
  act-InOrder c q closing h = h

  -- What a closed queue keeps.
  abbrev Drains : Queue T → Queue T → Type 0
  Drains q q' =
      (q'.is_opened ≡ false)
      × (q'.accepted ≡ q.accepted)
      × (q'.taken ++ q'.queue ≡ q.taken ++ q.queue)

  pop_front-Drains :
      (xs : List T) (q : Queue T) → xs ≡ q.queue → q.is_opened ≡ false → Drains q (pop_front xs q).0
  unfolding pop_front
  pop_front-Drains [] q e h = (h, refl, refl)
  pop_front-Drains (x ∷ xs) q e h =
      (h, refl, append_assoc q.taken (x ∷ []) xs ∙ ap (λ (ys : List T). q.taken ++ ys) e)

  take_section-Drains : (q : Queue T) → q.is_opened ≡ false → Drains q (take_section q).0
  unfolding take_section
  take_section-Drains q h = ground (arith, pop_front-Drains q.queue q refl h)

  act-Drains : (c : Call T) (q : Queue T) (p : Pc T) → q.is_opened ≡ false → Drains q (act c q p).0
  unfolding act
  act-Drains (call_put v) q (outside _) h = unfold put_section in ground (arith, h)
  act-Drains call_take q (outside _) h = take_section-Drains q h
  act-Drains call_close q (outside _) h = unfold close_section in ground (arith, h)
  act-Drains c q notifying h = (h, refl, refl)
  act-Drains call_take q asleep h = take_section-Drains q h
  act-Drains (call_put v) q asleep h = (h, refl, refl)
  act-Drains call_close q asleep h = (h, refl, refl)
  act-Drains c q woken h = take_section-Drains q h
  act-Drains c q closing h = (h, refl, refl)

  Drains-trans : (q r s : Queue T) → Drains q r → Drains r s → Drains q s
  Drains-trans q r s a b = (b.0, b.1 ∙ a.1, b.2 ∙ a.2)

  module _ (pick : ℕ → (ℕ → Bool) → Option ℕ) (n : ℕ) where
    -- After every schedule, the values popped so far and then the values in the queue are the
    -- values that were accepted, in the order in which they were accepted.
    pub blocking_queue_fifo :
        (ts : List (ℕ × Call T))
        → let q = (run (step pick n) n ts init).mem in q.accepted ≡ q.taken ++ q.queue
    unfolding step
    blocking_queue_fifo ts =
        run_inv (step pick n) n (λ w. InOrder w.mem) (λ i c w lt h. act-InOrder c w.mem (w.pc i) h)
          ts init refl

    -- From a closed queue on, whatever the threads do, the queue stays closed, accepts nothing, and
    -- loses nothing: what is popped from then on and what is left make up what it held.
    pub close_final :
        (w : World (Queue T) (Pc T)) (ts : List (ℕ × Call T))
        → w.mem.is_opened ≡ false
        → let q = (run (step pick n) n ts w).mem in
          (q.is_opened ≡ false)
          × (q.accepted ≡ w.mem.accepted)
          × (q.taken ++ q.queue ≡ w.mem.taken ++ w.mem.queue)
    unfolding step
    close_final w ts closed =
        run_inv (step pick n) n (λ u. Drains w.mem u.mem)
          (λ i c u lt h.
            Drains-trans w.mem u.mem (act c u.mem (u.pc i)).0 h (act-Drains c u.mem (u.pc i) h.0))
          ts w (closed, refl, refl)
