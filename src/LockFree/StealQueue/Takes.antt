-- ===== src/LockFree/StealQueue/Takes.antt =====
-- The loads and compare-exchanges of `TryPop` and `Grab` in
-- tasks/lockfree/steal/work_stealing_queue.hpp keep the invariant.
use concurrency_course_by_li.Base.{
  ℕ, zero, suc, ◌+◌, ◌-◌, ◌≤◌, ◌<◌, ◌≡◌, refl, sym, ap, ◌∙◌, inl, inr, List, [], ◌∷◌, ◌++◌,
  append_assoc, arith, ltb, ◌==◌, if◌then◌else◌, ==_iff, Bool-cases, length, length-append,
  wrap_add, wrap_sub,
}
use concurrency_course_by_li.LockFree.StealQueue.{
  Queue, Pc, outside, pop_check, pop_read, grab_count, grab_copy, grab_cas, pop_returned,
  grab_returned, to_index, empty_test, pop_exchange, grab_size, grab_round, grab_exchange,
}
use concurrency_course_by_li.LockFree.StealQueue.Window.{window, window-snoc, window-append}
use concurrency_course_by_li.LockFree.StealQueue.Invariant.{Shared, Fresh, Local}
use concurrency_course_by_li.LockFree.StealQueue.Moves.{After, limit, read-After}

module _ {T : Type 0} (null : T) (c : ℕ) where
  pub empty-After :
      (k i : ℕ) (q : Queue T) (current h : ℕ)
      → Shared c k q
      → current ≤ h
      → h ≤ q.head
      → After null c k i q (empty_test null c current h q)
  unfolding empty_test Local
  empty-After k i q current h s a b = elim (Bool-cases (h == q.tail)) [
    | inl empty ↦ rw empty (read-After null c k i q (outside (pop_returned null)) s tt)
    | inr more ↦
        rw more (
          read-After null c k i q (pop_read current) s
            (omega arith, λ now. ground (arith, s.order)))
  ]

  -- A consumer takes the oldest values out.
  taken-After :
      (k i : ℕ) (q : Queue T) (out : List T) (h : ℕ) (p : Pc T)
      → k < limit
      → Shared c k q
      → h ≡ q.head + length out
      → h ≤ q.tail
      → out ≡ window c q.buffer q.head (length out)
      → ((q' : Queue T) → Local c i q' p)
      → After null c k i q (record q { head = h; taken = q.taken ++ out }, p)
  taken-After k i q out h p early s e short same l =
      let count : q.tail - q.head ≡ length out + (q.tail - h) = omega arith in
      let split : window c q.buffer q.head (q.tail - q.head)
          ≡ out ++ window c q.buffer h (q.tail - h) =
        rw count (
          window-append c q.buffer q.head (length out) (q.tail - h)
          ∙ ap (λ x. x ++ window c q.buffer (q.head + length out) (q.tail - h)) (sym same)
          ∙ ap (λ lo. out ++ window c q.buffer lo (q.tail - h)) (sym e)) in
      (
        record {
          order = short;
          room = omega (arith, s.room);
          early = omega (arith, s.early);
          content = append_assoc q.taken out _ ∙ ap (λ x. q.taken ++ x) (sym split) ∙ s.content;
        },
        l _,
        λ j other. record {
          heads = omega arith;
          tails = omega arith;
          own_tail = λ y. refl;
          own_buffer = λ y p. refl;
          slots = λ p a b. refl;
        },
      )

  pub pop-After :
      (k i : ℕ) (q : Queue T) (current : ℕ) (v : T)
      → k < limit
      → Shared c k q
      → Fresh c q current ((current < q.tail) × (v ≡ q.buffer (to_index c current)))
      → After null c k i q (pop_exchange null c current v q)
  unfolding pop_exchange Local window
  pop-After k i q current v early s (a, f) = elim (Bool-cases (q.head == current)) [
    | inl now ↦
        let e : current ≡ q.head = sym ((==_iff _ _).0 now) in
        let g = f e in
        rw now (
          taken-After k i q (v ∷ []) (wrap_add current 1) (outside (pop_returned v)) early s
            (ground (arith, s.early, g.0)) (ground (arith, s.early, g.0))
            (ap (λ x. x ∷ []) (g.1 ∙ ap (λ p. q.buffer (to_index c p)) e)) (λ q'. tt))
    | inr late ↦ rw late (read-After null c k i q (pop_check q.head) s (omega arith))
  ]

  pub size-After :
      (k i : ℕ) (q : Queue T) (room current t : ℕ)
      → k < limit
      → Shared c k q
      → current ≤ q.head
      → current ≤ t
      → t ≤ q.tail
      → After null c k i q (grab_size null c room current t q)
  unfolding grab_size Local window
  size-After k i q room current t early s a b d = elim (Bool-cases (wrap_sub t q.head == 0)) [
    | inl empty ↦ rw empty (read-After null c k i q (outside (grab_returned [])) s tt)
    | inr some_left ↦ rw some_left (
        read-After null c k i q
          (grab_copy room current []
            (if ltb room (wrap_sub t q.head) then room else wrap_sub t q.head))
          s (a, λ now. (ground (arith, s.order, s.room, s.early), refl)))
  ]

  pub round-After :
      (k i : ℕ) (q : Queue T) (room current : ℕ) (out : List T) (left : ℕ)
      → k < limit
      → Shared c k q
      → Local c i q (grab_copy room current out left)
      → After null c k i q (grab_round null c room current out left q)
  unfolding grab_round Local
  round-After k i q room current out zero early s (a, f) =
      read-After null c k i q (grab_cas room current out) s
        (a, λ now. let g = f now in (omega (arith, g.0), g.1))
  round-After k i q room current out (suc left) early s (a, f) =
      let v = q.buffer (to_index c (wrap_add current (length out))) in
      let grown : length (out ++ (v ∷ [])) ≡ suc (length out) =
        omega (arith, length-append out (v ∷ [])) in
      read-After null c k i q (grab_copy room current (out ++ (v ∷ [])) left) s (
        a,
        λ now.
            let g = f now in
            let at : wrap_add current (length out) ≡ current + length out =
              ground (arith, s.early, g.0) in
            (
              omega (arith, g.0, grown),
              rw grown (
                  ap (λ l. l ++ (v ∷ [])) g.1
                  ∙ ap
                      (λ p.
                        window c q.buffer current (length out) ++ (q.buffer (to_index c p) ∷ []))
                      at
                  ∙ sym (window-snoc c q.buffer current (length out))),
            ),
      )

  pub grab-After :
      (k i : ℕ) (q : Queue T) (room current : ℕ) (out : List T)
      → k < limit
      → Shared c k q
      → Local c i q (grab_cas room current out)
      → After null c k i q (grab_exchange null c room current out q)
  unfolding grab_exchange Local
  grab-After k i q room current out early s (a, f) = elim (Bool-cases (q.head == current)) [
    | inl now ↦
        let e : current ≡ q.head = sym ((==_iff _ _).0 now) in
        let g = f e in
        rw now (
          taken-After k i q out (wrap_add current (length out)) (outside (grab_returned out)) early
            s (ground (arith, s.early, g.0)) (ground (arith, s.early, g.0))
            (g.1 ∙ ap (λ p. window c q.buffer p (length out)) e) (λ q'. tt))
    | inr late ↦ rw late (read-After null c k i q (grab_count room q.head) s (omega arith))
  ]
