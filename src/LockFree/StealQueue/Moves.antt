-- ===== src/LockFree/StealQueue/Moves.antt =====
-- The steps of `TryPush` in tasks/lockfree/steal/work_stealing_queue.hpp keep the invariant.
use concurrency_course_by_li.Base.{
  ℕ, suc, ◌+◌, ◌-◌, ◌^◌, ◌≤◌, ◌<◌, ◌≡◌, refl, sym, ap, ◌∙◌, inl, inr, false, [], ◌∷◌, ◌++◌,
  append_assoc, arith, ◌==◌, ==_iff, Bool-cases, wrap_add, wrap_sub,
}
use concurrency_course_by_li.Threads.{update}
use concurrency_course_by_li.LockFree.StealQueue.{
  Queue, Pc, outside, push_load, push_returned, push_returned, to_index, full_test, store_slot,
  store_tail,
}
use concurrency_course_by_li.LockFree.StealQueue.Window.{window-cong, window-snoc, update-apart}
use concurrency_course_by_li.LockFree.StealQueue.Invariant.{Shared, Local, Kept}

-- No counter comes near 2^64 within this many steps.
abbrev pub limit : ℕ
limit = 2 ^ 62

module _ {T : Type 0} (null : T) (c : ℕ) where
  -- What a step of thread `i` from `q` has to establish.
  abbrev pub After : ℕ → ℕ → Queue T → Queue T × Pc T → Type 0
  After k i q r =
      Shared c (suc k) r.0 × Local c i r.0 r.1 × ((j : ℕ) → (j ≡ i → ⊥) → Kept c j q r.0)

  pub later : (k : ℕ) (q : Queue T) → Shared c k q → Shared c (suc k) q
  later k q s = record {
    order = s.order;
    room = s.room;
    early = omega (arith, s.early);
    content = s.content;
  }

  -- A step that only reads.
  pub read-After :
      (k i : ℕ) (q : Queue T) (p : Pc T) → Shared c k q → Local c i q p → After k i q (q, p)
  read-After k i q p s l = (
    later k q s,
    l,
    λ j other. record {
      heads = omega arith;
      tails = omega arith;
      own_tail = λ z. refl;
      own_buffer = λ z p. refl;
      slots = λ p a b. refl;
    },
  )

  pub full-After :
      (k i : ℕ) (q : Queue T) (v : T) (t : ℕ)
      → k < limit
      → Shared c k q
      → i ≡ 0
      → t ≡ q.tail
      → After k i q (full_test null c v t q)
  unfolding full_test Local
  full-After k i q v t early s z e = elim (Bool-cases (wrap_sub t q.head == c)) [
    | inl full ↦ rw full (read-After k i q (outside (push_returned false)) s tt)
    | inr free ↦
        rw free (read-After k i q (push_load v) s (z, ground (arith, s.order, s.room, s.early)))
  ]

  pub slot-After :
      (k i : ℕ) (q : Queue T) (v : T) (t : ℕ)
      → Shared c k q
      → i ≡ 0
      → t ≡ q.tail
      → q.tail < q.head + c
      → After k i q (store_slot null c v t q)
  unfolding store_slot Local
  slot-After k i q v t s z e lt =
      let kept : (p : ℕ)
          → q.head ≤ p
          → p < q.tail
          → update q.buffer (to_index c t) v (to_index c p) ≡ q.buffer (to_index c p) =
        λ p a b. update-apart c q.buffer p t v (omega arith) (omega arith) in
      (
        record {
          order = s.order;
          room = s.room;
          early = omega (arith, s.early);
          content =
              ap (λ l. q.taken ++ l)
                (window-cong c _ _ q.head (q.tail - q.head)
                  (λ p a b. kept p a (omega (arith, s.order))))
              ∙ s.content;
        },
        (z, e, lt, rw ((==_iff (to_index c t) (to_index c t)).1 refl) refl),
        λ j other. record {
          heads = omega arith;
          tails = omega arith;
          own_tail = λ y. refl;
          own_buffer = λ y p. absurd (other (y ∙ sym z));
          slots = kept;
        },
      )

  pub tail-After :
      (k i : ℕ) (q : Queue T) (v : T) (t : ℕ)
      → k < limit
      → Shared c k q
      → i ≡ 0
      → t ≡ q.tail
      → q.tail < q.head + c
      → q.buffer (to_index c t) ≡ v
      → After k i q (store_tail null c v t q)
  unfolding store_tail Local
  tail-After k i q v t early s z e lt here =
      let grown : wrap_add t 1 ≡ suc q.tail = ground (arith, s.early) in
      let at : q.head + (q.tail - q.head) ≡ t = omega (arith, s.order) in
      let count : suc q.tail - q.head ≡ suc (q.tail - q.head) = omega (arith, s.order) in
      rw grown (
        record {
          order = omega (arith, s.order);
          room = omega arith;
          early = omega (arith, s.early);
          content =
              rw (count, window-snoc c q.buffer q.head (q.tail - q.head), at, here)
                (sym (append_assoc q.taken _ (v ∷ [])) ∙ ap (λ l. l ++ (v ∷ [])) s.content);
        },
        tt,
        λ j other. record {
          heads = omega arith;
          tails = omega arith;
          own_tail = λ y. absurd (other (y ∙ sym z));
          own_buffer = λ y p. refl;
          slots = λ p a b. refl;
        },
      )
