-- ===== src/LockFree/StealQueue/Contents.antt =====
-- The ring of tasks/lockfree/steal/work_stealing_queue.hpp seen as the list of its values.
use concurrency_course_by_li.Base.{
  ℕ, ◌+◌, ◌-◌, ◌≤◌, ◌≡◌, refl, sym, ap, ◌∙◌, ◌↔◌, inl, inr, false, List, [], ◌∷◌, ◌++◌, arith, ◌==◌,
  Bool-cases, length, wrap_sub,
}
use concurrency_course_by_li.LockFree.StealQueue.{
  Queue, outside, push_returned, full_test, push_full, push_load, pop_check_tail, pop_cas, grab_cas,
  to_index,
}
use concurrency_course_by_li.LockFree.StealQueue.Window.{window, window-append, length-window}
use concurrency_course_by_li.LockFree.StealQueue.Invariant.{Shared, Local}
use concurrency_course_by_li.LockFree.StealQueue.Moves.{limit}

module _ {T : Type 0} (c : ℕ) where
  -- The values in the ring, the oldest first.
  abbrev pub contents : Queue T → List T
  contents q = window c q.buffer q.head (q.tail - q.head)

module _ {T : Type 0} (null : T) (c : ℕ) where
  pub length-contents : (q : Queue T) → length (contents c q) ≡ q.tail - q.head
  length-contents q = length-window c q.buffer q.head (q.tail - q.head)

  -- A run from the head on is the front of the ring.
  contents-front :
      (q : Queue T) (out : List T)
      → q.head + length out ≤ q.tail
      → out ≡ window c q.buffer q.head (length out)
      → contents c q
        ≡ out ++ window c q.buffer (q.head + length out) (q.tail - (q.head + length out))
  contents-front q out short same =
      let count : q.tail - q.head ≡ length out + (q.tail - (q.head + length out)) = omega arith in
      rw count (
        window-append c q.buffer q.head (length out) _
        ∙ ap (λ x. x ++ window c q.buffer (q.head + length out) (q.tail - (q.head + length out)))
            (sym same))

  pub grab-front :
      (i room current : ℕ) (out : List T) (q : Queue T)
      → Local c i q (grab_cas room current out)
      → q.head ≡ current
      → (rest : List T) × (contents c q ≡ out ++ rest)
  unfolding Local
  grab-front i room current out q (a, f) now =
      let g = f (sym now) in
      (
        _,
        contents-front q out (omega (arith, g.0))
            (g.1 ∙ ap (λ p. window c q.buffer p (length out)) (sym now)),
      )

  pub pop-front :
      (i current : ℕ) (v : T) (q : Queue T)
      → Local c i q (pop_cas current v)
      → q.head ≡ current
      → (rest : List T) × (contents c q ≡ v ∷ rest)
  unfolding Local window
  pop-front i current v q (a, f) now =
      let g = f (sym now) in
      (
        _,
        contents-front q (v ∷ []) (omega (arith, g.0))
            (ap (λ x. x ∷ []) (g.1 ∙ ap (λ p. q.buffer (to_index c p)) (sym now))),
      )

  pub empty-contents :
      (k i current h : ℕ) (q : Queue T)
      → Shared c k q
      → Local c i q (pop_check_tail current h)
      → h ≡ q.tail
      → contents c q ≡ []
  unfolding Local window
  empty-contents k i current h q s (a, b) e =
      let none_left : q.tail - q.head ≡ 0 = omega arith in rw none_left refl

  pub full_test_iff :
      (k i t : ℕ) (v : T) (q : Queue T)
      → k ≤ limit
      → Shared c k q
      → Local c i q (push_full v t)
      → ((full_test null c v t q).1 ≡ outside (push_returned false)) ↔ (length (contents c q) ≡ c)
  unfolding Local full_test
  full_test_iff k i t v q early s (z, e) =
      let size : wrap_sub t q.head ≡ length (contents c q) =
        ground (arith, length-contents q, s.order, s.early) in
      elim (Bool-cases (wrap_sub t q.head == c)) [
        | inl full ↦ (λ r. ground (arith, size), λ r. rw full refl)
        | inr free ↦ (
          λ r.
              absurd (let f : (full_test null c v t q).1 ≡ push_load v = rw free refl in cc (f, r)),
          λ r. absurd (ground (arith, size)),
        )
      ]
