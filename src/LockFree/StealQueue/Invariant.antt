-- ===== src/LockFree/StealQueue/Invariant.antt =====
-- What holds in every reachable state of tasks/lockfree/steal/work_stealing_queue.hpp, for the ring
-- and for the locals of each thread. Locals whose head is no longer the current one say nothing.
use concurrency_course_by_li.Base.{ℕ, ◌+◌, ◌-◌, ◌≤◌, ◌<◌, ◌≡◌, sym, ◌∙◌, List, ◌++◌, arith, length}
use concurrency_course_by_li.LockFree.StealQueue.{
  Queue, Pc, outside, push_full, push_load, push_slot, push_tail, pop_check, pop_check_tail,
  pop_read, pop_cas, grab_count, grab_count_head, grab_copy, grab_cas, to_index,
}
use concurrency_course_by_li.LockFree.StealQueue.Window.{window, window-cong}

module _ {T : Type 0} (c : ℕ) where
  -- The ring after at most `k` steps.
  pub record Shared (k : ℕ) (q : Queue T) : Type 0 where
    pub order : q.head ≤ q.tail
    pub room : q.tail ≤ q.head + c
    pub early : q.tail ≤ k
    pub content : q.taken ++ window c q.buffer q.head (q.tail - q.head) ≡ q.pushed

  -- A local head is not ahead of the current one, and if it is still the current one, `P` holds.
  abbrev pub Fresh : Queue T → ℕ → Type 0 → Type 0
  Fresh q current P = (current ≤ q.head) × (current ≡ q.head → P)

  unfoldable pub Local : ℕ → Queue T → Pc T → Type 0
  Local i q (outside r) = Unit
  Local i q (push_full v t) = (i ≡ 0) × (t ≡ q.tail)
  Local i q (push_load v) = (i ≡ 0) × (q.tail < q.head + c)
  Local i q (push_slot v t) = (i ≡ 0) × (t ≡ q.tail) × (q.tail < q.head + c)
  Local i q (push_tail v t) =
      (i ≡ 0) × (t ≡ q.tail) × (q.tail < q.head + c) × (q.buffer (to_index c t) ≡ v)
  Local i q (pop_check current) = current ≤ q.head
  Local i q (pop_check_tail current h) = (current ≤ h) × (h ≤ q.head)
  Local i q (pop_read current) = Fresh q current (current < q.tail)
  Local i q (pop_cas current v) =
      Fresh q current ((current < q.tail) × (v ≡ q.buffer (to_index c current)))
  Local i q (grab_count room current) = current ≤ q.head
  Local i q (grab_count_head room current t) = (current ≤ q.head) × (current ≤ t) × (t ≤ q.tail)
  Local i q (grab_copy room current out left) =
      Fresh q current
        ((current + (length out + left) ≤ q.tail) × (out ≡ window c q.buffer current (length out)))
  Local i q (grab_cas room current out) =
      Fresh q current
        ((current + length out ≤ q.tail) × (out ≡ window c q.buffer current (length out)))

  -- What a step of another thread leaves to thread `j`.
  pub record Kept (j : ℕ) (q q' : Queue T) : Type 0 where
    pub heads : q.head ≤ q'.head
    pub tails : q.tail ≤ q'.tail
    pub own_tail : j ≡ 0 → q'.tail ≡ q.tail
    pub own_buffer : j ≡ 0 → (p : ℕ) → q'.buffer p ≡ q.buffer p
    pub slots :
        (p : ℕ) → q.head ≤ p → p < q.tail → q'.buffer (to_index c p) ≡ q.buffer (to_index c p)

  -- The copied values are still those of the ring.
  Kept-window :
      (j : ℕ) (q q' : Queue T) (current : ℕ) (out : List T)
      → Kept j q q'
      → current ≡ q.head
      → current + length out ≤ q.tail
      → out ≡ window c q.buffer current (length out)
      → out ≡ window c q'.buffer current (length out)
  Kept-window j q q' current out kept now short same =
      same
      ∙ sym (
          window-cong c _ _ current (length out)
            (λ p a b. kept.slots p (omega arith) (omega arith)))

  pub Kept-Local : (j : ℕ) (q q' : Queue T) (p : Pc T) → Kept j q q' → Local j q p → Local j q' p
  unfolding Local
  Kept-Local j q q' (outside r) kept l = l
  Kept-Local j q q' (push_full v t) kept (z, e) = (z, omega (arith, kept.own_tail z))
  Kept-Local j q q' (push_load v) kept (z, lt) = (z, omega (arith, kept.own_tail z, kept.heads))
  Kept-Local j q q' (push_slot v t) kept (z, e, lt) =
      (z, omega (arith, kept.own_tail z), omega (arith, kept.own_tail z, kept.heads))
  Kept-Local j q q' (push_tail v t) kept (z, e, lt, s) = (
    z,
    omega (arith, kept.own_tail z),
    omega (arith, kept.own_tail z, kept.heads),
    kept.own_buffer z _ ∙ s,
  )
  Kept-Local j q q' (pop_check current) kept l = omega (arith, kept.heads)
  Kept-Local j q q' (pop_check_tail current h) kept (a, b) = (a, omega (arith, kept.heads))
  Kept-Local j q q' (pop_read current) kept (a, f) =
      (omega (arith, kept.heads), λ now. omega (arith, kept.tails, f (omega (arith, kept.heads))))
  Kept-Local j q q' (pop_cas current v) kept (a, f) = (
    omega (arith, kept.heads),
    λ now.
        let g = f (omega (arith, kept.heads)) in
        (
          omega (arith, kept.tails, g.0),
          g.1 ∙ sym (kept.slots current (omega (arith, kept.heads)) g.0),
        ),
  )
  Kept-Local j q q' (grab_count room current) kept l = omega (arith, kept.heads)
  Kept-Local j q q' (grab_count_head room current t) kept (a, b, d) =
      (omega (arith, kept.heads), b, omega (arith, kept.tails))
  Kept-Local j q q' (grab_copy room current out left) kept (a, f) = (
    omega (arith, kept.heads),
    λ now.
        let e : current ≡ q.head = omega (arith, kept.heads) in
        let g = f e in
        (
          omega (arith, kept.tails, g.0),
          Kept-window j q q' current out kept e (omega (arith, g.0)) g.1,
        ),
  )
  Kept-Local j q q' (grab_cas room current out) kept (a, f) = (
    omega (arith, kept.heads),
    λ now.
        let e : current ≡ q.head = omega (arith, kept.heads) in
        let g = f e in
        (omega (arith, kept.tails, g.0), Kept-window j q q' current out kept e g.0 g.1),
  )
